-- ===== src/Components/Linked.antt =====
-- The inverse map points into the groups.
use poll_bot.Common.{
  ◌≡◌, Bool, true, ◌&&◌, not, Option, none, some, [], ◌∷◌, String, string_comparable, ◌==◌, eq_iff,
  if◌then◌else◌, Bool-cases, Option-cases, inl, inr, arith,
}
use poll_bot.Common.GoMap.{GoMap, lookup, insert, erase, lookup-insert, lookup-erase}
use poll_bot.Components.{
  ComponentCallbacks, ComponentCallbackManager, GroupMetadata, Interaction, Outcome, close_id,
  has_key, members, forget, closing, sweep, follow, apply_rules, add, enter, register, close,
  finish_run, run, try_run, Returned,
}

-- Each interaction of the inverse map is in the group that the map names.
abbrev pub IsLinked : ComponentCallbackManager → Type 0
IsLinked man =
    (j group : String)
    → lookup j man.inverse ≡ some group
    → has_key (lookup j (members group man)) ≡ true

pub members-insert :
    (group g : String) (cs : GoMap String ComponentCallbacks) (man : ComponentCallbackManager)
    → members g (record man { groups = insert group cs man.groups })
      ≡ (if group == g then cs else members g man)
unfolding members
members-insert group g cs man = rw (lookup-insert group g cs man.groups) (ground arith)

forget-IsLinked :
    (group id : String) (man : ComponentCallbackManager)
    → IsLinked man
    → IsLinked (forget group id man)
unfolding forget members
forget-IsLinked group id man v j g h = ground (
  arith,
  h,
  v j g,
  lookup-erase id j man.inverse,
  members-insert group g (erase id (members group man)) man,
  lookup-erase id j (members group man),
  eq_iff group g,
)

add-IsLinked :
    (group : String) (c : ComponentCallbacks) (man : ComponentCallbackManager)
    → IsLinked man
    → IsLinked (add group c man)
unfolding add members
add-IsLinked group c man v j g h = ground (
  arith,
  h,
  v j g,
  lookup-insert c.intxn_id j group man.inverse,
  members-insert group g (insert c.intxn_id c (members group man)) man,
  lookup-insert c.intxn_id j c (members group man),
  eq_iff group g,
)

sweep-IsLinked :
    (closes : Bool) (group : String) (cs : GoMap String ComponentCallbacks)
    (man : ComponentCallbackManager)
    → IsLinked man
    → IsLinked (sweep closes group cs man).1
unfolding sweep
sweep-IsLinked closes group [] man v = v
sweep-IsLinked closes group ((id, c) ∷ cs) man v =
    let rest =
      sweep-IsLinked closes group cs (forget group id man) (forget-IsLinked group id man v) in
    elim (Option-cases (if closes then closing group c none else none)) [
      | inl e ↦ simp (e, sweep) rest
      | inr (x, e) ↦ simp (e, sweep) v
    ]

follow-IsLinked :
    (rules : Option GroupMetadata) (group : String) (man : ComponentCallbackManager)
    → IsLinked man
    → IsLinked (follow rules group man).1
unfolding follow
follow-IsLinked none group man v = v
follow-IsLinked (some rules) group man v = elim (Bool-cases rules.new_invalidates_old) [
  | inl e ↦ simp e (sweep-IsLinked rules.invalidation_closes group (members group man) man v)
  | inr e ↦ simp e v
]

enter-IsLinked :
    (group : String) (c : ComponentCallbacks) (o : Outcome)
    → IsLinked o.1
    → IsLinked (enter group c o).1
unfolding enter
enter-IsLinked group c (some e, man) v = v
enter-IsLinked group c (none, man) v =
    elim (Bool-cases (has_key (lookup (close_id group) c.callbacks))) [
      | inl e ↦ simp e (add-IsLinked group c man v)
      | inr e ↦ simp e v
    ]

-- Register keeps the inverse map pointing into the groups, whatever it returns.
pub register-IsLinked :
    (group : String) (c : ComponentCallbacks) (man : ComponentCallbackManager)
    → IsLinked man
    → IsLinked (register group c man).1
unfolding register apply_rules
register-IsLinked group c man v = elim (Bool-cases (has_key (lookup group man.groups))) [
  | inl e ↦ simp e (
      enter-IsLinked group c (apply_rules group man)
        (follow-IsLinked (lookup group man.rules) group man v))
  | inr e ↦ simp e v
]

close-IsLinked :
    (group : String) (c : ComponentCallbacks) (i : Option Interaction)
    (man : ComponentCallbackManager)
    → IsLinked man
    → IsLinked (close group c i man).1
unfolding close
close-IsLinked group c i man v = elim (Option-cases (closing group c i)) [
  | inl e ↦ simp (e, close) (forget-IsLinked group c.intxn_id man v)
  | inr (x, e) ↦ simp (e, close) v
]

finish_run-IsLinked :
    (group : String) (c : ComponentCallbacks) (i : Interaction) (cid : String) (r : Returned)
    (man : ComponentCallbackManager)
    → IsLinked man
    → IsLinked (finish_run group c i cid r man).1
unfolding finish_run
finish_run-IsLinked group c i cid r man v = elim (Bool-cases r.failed) [
  | inl e ↦ simp e v
  | inr e ↦ elim (Bool-cases (r.done && not (cid == close_id group))) [
    | inl e' ↦ simp (e, e') (close-IsLinked group c (some i) man v)
    | inr e' ↦ simp (e, e') v
  ]
]

run-IsLinked :
    (group : String) (c : Option ComponentCallbacks) (i : Interaction)
    (man : ComponentCallbackManager)
    → IsLinked man
    → IsLinked (run group c i man).1.1
unfolding run
run-IsLinked group none i man v = v
run-IsLinked group (some c) i man v = elim (Bool-cases c.busy) [
  | inl e ↦ simp e v
  | inr e ↦ elim (Option-cases i.custom_id) [
    | inl e' ↦ simp (e, e') v
    | inr (cid, e') ↦ elim (Option-cases (lookup cid c.callbacks)) [
      | inl e'' ↦ simp (e, e', e'') v
      | inr (f, e'') ↦ simp (e, e', e'') (finish_run-IsLinked group c i cid (f (some i)) man v)
    ]
  ]
]

-- TryRun keeps the inverse map pointing into the groups, whatever the callbacks return.
pub try_run-IsLinked :
    (i : Interaction) (man : ComponentCallbackManager) → IsLinked man → IsLinked (try_run i man).1.1
unfolding try_run
try_run-IsLinked i man v = elim (Option-cases (lookup i.user_id man.inverse)) [
  | inl e ↦ simp (e, try_run) v
  | inr (group, e) ↦
      simp (e, try_run) (run-IsLinked group (lookup i.user_id (members group man)) i man v)
]
