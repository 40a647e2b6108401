-- ===== src/Session/Takeover.antt =====
-- What a registration does to the interaction that its user has in another group.
use poll_bot.Common.{
  ◌≡◌, ◌∙◌, refl, sym, subst, Bool, false, none, some, [], ◌∷◌, String, string_comparable, ◌==◌,
  eq_iff, if◌then◌else◌, Bool-cases, Option-cases, inl, inr, arith, Option,
}
use poll_bot.Common.GoMap.{GoMap, lookup, insert, erase, lookup-insert}
use poll_bot.Components.{
  ComponentCallbacks, ComponentCallbackManager, GroupMetadata, Interaction, Outcome, unknown_id,
  close_id, has_key, members, group_of, forget, closing, sweep, follow, apply_rules, add, enter,
  register, run, try_run,
}
use poll_bot.Components.Linked.{members-insert}

forget-elsewhere :
    (group other id j : String) (man : ComponentCallbackManager)
    → (group == other) ≡ false
    → lookup j (members other (forget group id man)) ≡ lookup j (members other man)
unfolding forget
forget-elsewhere group other id j man apart =
    rw (members-insert group other (erase id (members group man)) man) (rw apart refl)

sweep-elsewhere :
    (closes : Bool) (group other j : String) (cs : GoMap String ComponentCallbacks)
    (man : ComponentCallbackManager)
    → (group == other) ≡ false
    → lookup j (members other (sweep closes group cs man).1) ≡ lookup j (members other man)
unfolding sweep
sweep-elsewhere closes group other j [] man apart = refl
sweep-elsewhere closes group other j ((id, c) ∷ cs) man apart =
    elim (Option-cases (if closes then closing group c none else none)) [
      | inl e ↦
          simp (e, sweep)
            (sweep-elsewhere closes group other j cs (forget group id man) apart
              ∙ forget-elsewhere group other id j man apart)
      | inr (x, e) ↦ simp (e, sweep) refl
    ]

follow-elsewhere :
    (rules : Option GroupMetadata) (group other j : String) (man : ComponentCallbackManager)
    → (group == other) ≡ false
    → lookup j (members other (follow rules group man).1) ≡ lookup j (members other man)
unfolding follow
follow-elsewhere none group other j man apart = refl
follow-elsewhere (some rules) group other j man apart =
    elim (Bool-cases rules.new_invalidates_old) [
      | inl e ↦
          simp e
            (sweep-elsewhere rules.invalidation_closes group other j (members group man) man apart)
      | inr e ↦ simp e refl
    ]

add-elsewhere :
    (group other j : String) (c : ComponentCallbacks) (man : ComponentCallbackManager)
    → (group == other) ≡ false
    → lookup j (members other (add group c man)) ≡ lookup j (members other man)
unfolding add lookup members
add-elsewhere group other j c man apart =
    rw (members-insert group other (insert c.intxn_id c (members group man)) man) (rw apart refl)

enter-elsewhere :
    (group other j : String) (c : ComponentCallbacks) (o : Outcome)
    → (group == other) ≡ false
    → lookup j (members other (enter group c o).1) ≡ lookup j (members other o.1)
unfolding enter
enter-elsewhere group other j c (some e, man) apart = refl
enter-elsewhere group other j c (none, man) apart =
    elim (Bool-cases (has_key (lookup (close_id group) c.callbacks))) [
      | inl e ↦ simp e (add-elsewhere group other j c man apart)
      | inr e ↦ simp e refl
    ]

-- Register leaves the members of every other group, whatever it returns.
register-elsewhere :
    (group other j : String) (c : ComponentCallbacks) (man : ComponentCallbackManager)
    → (group == other) ≡ false
    → lookup j (members other (register group c man).1) ≡ lookup j (members other man)
unfolding register apply_rules
register-elsewhere group other j c man apart =
    elim (Bool-cases (has_key (lookup group man.groups))) [
      | inl e ↦ simp e (
          enter-elsewhere group other j c (follow (lookup group man.rules) group man) apart
          ∙ follow-elsewhere (lookup group man.rules) group other j man apart)
      | inr e ↦ simp e refl
    ]

-- Where the callbacks of a user are found
abbrev pub IsAt : String → ComponentCallbacks → ComponentCallbackManager → Type 0
IsAt group c man =
    (group_of c.intxn_id man ≡ some group) × (lookup c.intxn_id (members group man) ≡ some c)

add-IsAt :
    (group : String) (c : ComponentCallbacks) (man : ComponentCallbackManager)
    → IsAt group c (add group c man)
unfolding add lookup members group_of
add-IsAt group c man = (
  rw (lookup-insert c.intxn_id c.intxn_id group man.inverse)
      (ground (arith, eq_iff c.intxn_id c.intxn_id)),
  rw (members-insert group group (insert c.intxn_id c (members group man)) man) (
      ground (
        arith,
        eq_iff group group,
        eq_iff c.intxn_id c.intxn_id,
        lookup-insert c.intxn_id c.intxn_id c (members group man),
      )),
)

enter-IsAt :
    (group : String) (c : ComponentCallbacks) (o : Outcome)
    → (enter group c o).0 ≡ none
    → IsAt group c (enter group c o).1
unfolding enter
enter-IsAt group c (some e, man) ok = absurd (cc ok)
enter-IsAt group c (none, man) ok =
    elim (Bool-cases (has_key (lookup (close_id group) c.callbacks))) [
      | inl e ↦ simp e (add-IsAt group c man)
      | inr e ↦ absurd (cc (simp e at ok))
    ]

pub register-IsAt :
    (group : String) (c : ComponentCallbacks) (man : ComponentCallbackManager)
    → (register group c man).0 ≡ none
    → IsAt group c (register group c man).1
unfolding register
register-IsAt group c man ok = elim (Bool-cases (has_key (lookup group man.groups))) [
  | inl e ↦ simp e (enter-IsAt group c (apply_rules group man) (simp e at ok))
  | inr e ↦ absurd (cc (simp e at ok))
]

try_run-IsAt :
    (group : String) (c : ComponentCallbacks) (i : Interaction) (man : ComponentCallbackManager)
    → IsAt group c man
    → i.user_id ≡ c.intxn_id
    → try_run i man ≡ run group (some c) i man
unfolding try_run group_of
try_run-IsAt group c i man at mine =
    let found : lookup i.user_id man.inverse ≡ some group =
      subst (λ id. group_of id man ≡ some group) (sym mine) at.0 in
    let held : lookup i.user_id (members group man) ≡ some c =
      subst (λ id. lookup id (members group man) ≡ some c) (sym mine) at.1 in
    simp (found, held, try_run)

run-unknown_id :
    (group cid : String) (c : ComponentCallbacks) (i : Interaction) (man : ComponentCallbackManager)
    → c.busy ≡ false
    → i.custom_id ≡ some cid
    → lookup cid c.callbacks ≡ none
    → run group (some c) i man ≡ (false, (some unknown_id, man))
unfolding run
run-unknown_id group cid c i man idle named no_callback = rw (idle, named, no_callback) refl

-- A user whose callbacks `old` are held in one group registers others in another group, and no
-- error is returned. Then the manager still holds `old`, but a press of one of its components
-- answers that the id is unknown, where the new callbacks do not have that id.
pub register-takes_over :
    (group other cid : String) (c old : ComponentCallbacks) (man : ComponentCallbackManager)
    (i : Interaction)
    → (group == other) ≡ false
    → (register group c man).0 ≡ none
    → c.busy ≡ false
    → lookup c.intxn_id (members other man) ≡ some old
    → i.user_id ≡ c.intxn_id
    → i.custom_id ≡ some cid
    → lookup cid c.callbacks ≡ none
    → let man' = (register group c man).1 in
      (lookup c.intxn_id (members other man') ≡ some old)
      × (try_run i man' ≡ (false, (some unknown_id, man')))
register-takes_over group other cid c old man i apart ok idle held mine named no_callback =
    let man' = (register group c man).1 in
    (
      register-elsewhere group other c.intxn_id c man apart ∙ held,
      try_run-IsAt group c i man' (register-IsAt group c man ok) mine
          ∙ run-unknown_id group cid c i man' idle named no_callback,
    )
