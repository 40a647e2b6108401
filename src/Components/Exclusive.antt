-- ===== src/Components/Exclusive.antt =====
-- What a group holds after Register.
use poll_bot.Common.{
  ◌≡◌, ◌∙◌, refl, Bool, true, false, ◌||◌, none, some, [], ◌∷◌, String, string_comparable, ◌==◌,
  eq_iff, if◌then◌else◌, Bool-cases, Option-cases, inl, inr, arith,
}
use poll_bot.Common.GoMap.{GoMap, lookup, insert, erase, lookup-insert, lookup-erase}
use poll_bot.Components.{
  ComponentCallbacks, ComponentCallbackManager, GroupMetadata, Outcome, without_close, close_id,
  has_key, members, forget, closing, sweep, follow, apply_rules, add, enter, register,
}
use poll_bot.Components.Linked.{members-insert}

abbrev in_keys : String → GoMap String ComponentCallbacks → Bool
in_keys j [] = false
in_keys j ((id, c) ∷ cs) = id == j || in_keys j cs

lookup-in_keys :
    (j : String) (cs : GoMap String ComponentCallbacks) → in_keys j cs ≡ false → lookup j cs ≡ none
unfolding lookup
lookup-in_keys j [] h = refl
lookup-in_keys j ((id, c) ∷ cs) h = ground (arith, h, lookup-in_keys j cs)

lookup-forget :
    (group id j : String) (man : ComponentCallbackManager)
    → lookup j (members group (forget group id man))
      ≡ (if id == j then none else lookup j (members group man))
unfolding forget
lookup-forget group id j man =
    rw (members-insert group group (erase id (members group man)) man)
      (ground (arith, eq_iff group group, lookup-erase id j (members group man)))

lookup-sweep :
    (closes : Bool) (group j : String) (cs : GoMap String ComponentCallbacks)
    (man : ComponentCallbackManager)
    → (sweep closes group cs man).0 ≡ none
    → lookup j (members group (sweep closes group cs man).1)
      ≡ (if in_keys j cs then none else lookup j (members group man))
unfolding sweep
lookup-sweep closes group j [] man ok = ground arith
lookup-sweep closes group j ((id, c) ∷ cs) man ok =
    elim (Option-cases (if closes then closing group c none else none)) [
      | inl e ↦
          let ok' = simp (e, sweep) at ok in
          simp (e, sweep)
            (lookup-sweep closes group j cs (forget group id man) ok'
              ∙ ground (arith, lookup-forget group id j man))
      | inr (x, e) ↦ absurd (cc (simp (e, sweep) at ok))
    ]

apply_rules-none :
    (group j : String) (man : ComponentCallbackManager) (rules : GroupMetadata)
    → lookup group man.rules ≡ some rules
    → rules.new_invalidates_old ≡ true
    → (apply_rules group man).0 ≡ none
    → lookup j (members group (apply_rules group man).1) ≡ none
unfolding apply_rules follow
apply_rules-none group j man rules has_rules invalidates ok =
    let closes = rules.invalidation_closes in
    let cs = members group man in
    let ok' : (sweep closes group cs man).0 ≡ none = rw (has_rules, invalidates, follow) at ok in
    rw (has_rules, invalidates, follow)
      (lookup-sweep closes group j cs man ok' ∙ elim (Bool-cases (in_keys j cs)) [
        | inl e ↦ rw e refl
        | inr e ↦ rw (e, lookup-in_keys j cs e) refl
      ])

enter-error :
    (group : String) (c : ComponentCallbacks) (o : Outcome)
    → (enter group c o).0 ≡ none
    → o.0 ≡ none
unfolding enter
enter-error group c (some e, man) ok = absurd (cc ok)
enter-error group c (none, man) ok = refl

lookup-add :
    (group j : String) (c : ComponentCallbacks) (man : ComponentCallbackManager)
    → lookup j (members group (add group c man))
      ≡ (if c.intxn_id == j then some c else lookup j (members group man))
unfolding add lookup members
lookup-add group j c man =
    rw (members-insert group group (insert c.intxn_id c (members group man)) man)
      (ground (arith, eq_iff group group, lookup-insert c.intxn_id j c (members group man)))

enter-only :
    (group j : String) (c : ComponentCallbacks) (o : Outcome)
    → (enter group c o).0 ≡ none
    → lookup j (members group o.1) ≡ none
    → lookup j (members group (enter group c o).1) ≡ (if c.intxn_id == j then some c else none)
unfolding enter
enter-only group j c (some e, man) ok empty = absurd (cc ok)
enter-only group j c (none, man) ok empty =
    elim (Bool-cases (has_key (lookup (close_id group) c.callbacks))) [
      | inr e ↦ absurd (cc (simp e at ok))
      | inl e ↦ simp e (lookup-add group j c man ∙ rw empty refl)
    ]

-- Register, where the rules of the group say that a new interaction invalidates the old ones and no
-- error is returned, leaves the new callbacks as the only ones of the group.
pub register-only :
    (group : String) (c : ComponentCallbacks) (man : ComponentCallbackManager)
    (rules : GroupMetadata) (j : String)
    → lookup group man.rules ≡ some rules
    → rules.new_invalidates_old ≡ true
    → (register group c man).0 ≡ none
    → lookup j (members group (register group c man).1) ≡ (if c.intxn_id == j then some c else none)
unfolding register
register-only group c man rules j has_rules invalidates ok =
    elim (Bool-cases (has_key (lookup group man.groups))) [
      | inr e ↦ absurd (cc (simp e at ok))
      | inl e ↦
          let ok' : (enter group c (apply_rules group man)).0 ≡ none = simp e at ok in
          simp e (
            enter-only group j c (apply_rules group man) ok' (
              apply_rules-none group j man rules has_rules invalidates
                (enter-error group c (apply_rules group man) ok')))
    ]

-- Register of callbacks without a close callback, where the rules say that a new interaction
-- invalidates the old ones and closing these does not fail, reports that the close callback is
-- missing and has emptied the group all the same.
pub register-emptied :
    (group : String) (c : ComponentCallbacks) (man : ComponentCallbackManager)
    (rules : GroupMetadata) (j : String)
    → lookup group man.rules ≡ some rules
    → rules.new_invalidates_old ≡ true
    → has_key (lookup group man.groups) ≡ true
    → has_key (lookup (close_id group) c.callbacks) ≡ false
    → (apply_rules group man).0 ≡ none
    → ((register group c man).0 ≡ some without_close)
      × (lookup j (members group (register group c man).1) ≡ none)
unfolding register enter
register-emptied group c man rules j has_rules invalidates there no_close ok =
    let o = enter_without (apply_rules group man) ok in
    simp there (o.0, rw o.1 (apply_rules-none group j man rules has_rules invalidates ok))
  where
    enter_without :
        (o : Outcome)
        → o.0 ≡ none
        → ((enter group c o).0 ≡ some without_close) × ((enter group c o).1 ≡ o.1)
    enter_without (some e, man') ok' = absurd (cc ok')
    enter_without (none, man') ok' = simp no_close (refl, refl)
