-- ===== src/Components.antt =====
-- backend/core/root/managers/components: the callbacks of Discord's message components, grouped, with
-- the group of each interaction in an inverse map. Each call is one step: what another goroutine does
-- between the locks of one call is not modelled, nor a callback that calls the manager again. A
-- callback is what it returns for an interaction, nil for one that applyRules closes.
pub mod Linked
pub mod Exclusive
use poll_bot.Common.{
  ℕ, Bool, true, false, ◌&&◌, not, Option, none, some, List, [], ◌∷◌, String, string_comparable,
  ◌==◌, if◌then◌else◌,
}
use poll_bot.Common.GoMap.{GoMap, lookup, insert, erase}
use Prim.Native.String.{◌++◌ as append}

-- An interaction, by the id that the code reads of it, and the custom id that its type carries, if
-- its type is one that TryRun handles.
pub record Interaction : Type 0 where
  pub user_id : String
  pub custom_id : Option String

-- `err != nil` and `done`.
pub record Returned : Type 0 where
  pub failed : Bool
  pub done : Bool

abbrev pub Callback : Type 0
Callback = Option Interaction → Returned

pub record ComponentCallbacks : Type 0 where
  pub intxn_id : String
  pub callbacks : GoMap String Callback
  pub busy : Bool

pub record GroupMetadata : Type 0 where
  pub from_handle : String
  pub new_invalidates_old : Bool
  pub invalidation_closes : Bool

pub record ComponentCallbackManager : Type 0 where
  pub groups : GoMap String (GoMap String ComponentCallbacks)
  pub inverse : GoMap String String
  pub rules : GoMap String GroupMetadata

-- `nil_call` is the panic of a call of a callback that is not there.
pub data CallError : Type 0 where
  no_group close_failed without_close unregistered no_callback bad_type unknown_id callback_failed
        nil_call :
      CallError

abbrev pub Outcome : Type 0
Outcome = Option CallError × ComponentCallbackManager

abbrev pub close_id : String → String
close_id group = append group "-close"

abbrev pub has_key : {A : Type 0} → Option A → Bool
has_key none = false
has_key (some a) = true

abbrev pub or_empty : Option (GoMap String ComponentCallbacks) → GoMap String ComponentCallbacks
or_empty none = []
or_empty (some g) = g

unfoldable pub members : String → ComponentCallbackManager → GoMap String ComponentCallbacks
members group man = or_empty (lookup group man.groups)

unfoldable pub group_of : String → ComponentCallbackManager → Option String
group_of id man = lookup id man.inverse

unfoldable pub get_metadata : String → ComponentCallbackManager → Option GroupMetadata
get_metadata group man = lookup group man.rules

-- The two deletions of applyRules and of close.
unfoldable pub forget : String → String → ComponentCallbackManager → ComponentCallbackManager
unfolding members
forget group id man = record man {
  inverse = erase id man.inverse;
  groups = insert group (erase id (members group man)) man.groups;
}

-- The call of a close callback.
abbrev pub called : Option Callback → Option Interaction → Option CallError
called none i = some nil_call
called (some f) i = if (f i).failed then some close_failed else none

unfoldable pub closing : String → ComponentCallbacks → Option Interaction → Option CallError
closing group c i = called (lookup (close_id group) c.callbacks) i

-- The loop of applyRules; the order in which Go ranges over the group is not fixed.
unfoldable pub sweep :
    Bool → String → GoMap String ComponentCallbacks → ComponentCallbackManager → Outcome
unfolding forget closing
sweep closes group [] man = (none, man)
sweep closes group ((id, c) ∷ cs) man =
    let rest = sweep closes group cs (forget group id man) in
    elim (if closes then closing group c none else none) [ some e ↦ (some e, man) | none ↦ rest ]

unfoldable pub follow : Option GroupMetadata → String → ComponentCallbackManager → Outcome
unfolding sweep
follow none group man = (none, man)
follow (some rules) group man =
    if rules.new_invalidates_old
    then sweep rules.invalidation_closes group (members group man) man
    else (none, man)

unfoldable pub apply_rules : String → ComponentCallbackManager → Outcome
unfolding follow
apply_rules group man = follow (lookup group man.rules) group man

unfoldable pub add :
    String → ComponentCallbacks → ComponentCallbackManager → ComponentCallbackManager
add group c man = record man {
  inverse = insert c.intxn_id group man.inverse;
  groups = insert group (insert c.intxn_id c (members group man)) man.groups;
}

-- Register, once the rules are applied.
unfoldable pub enter : String → ComponentCallbacks → Outcome → Outcome
unfolding add
enter group c (some e, man) = (some e, man)
enter group c (none, man) =
    if has_key (lookup (close_id group) c.callbacks)
    then (none, add group c man)
    else (some without_close, man)

unfoldable pub register : String → ComponentCallbacks → ComponentCallbackManager → Outcome
unfolding apply_rules enter
register group c man =
    if has_key (lookup group man.groups)
    then enter group c (apply_rules group man)
    else (some no_group, man)

abbrev pub with_rules :
    String → Option GroupMetadata → GoMap String GroupMetadata → GoMap String GroupMetadata
with_rules group none rules = rules
with_rules group (some r) rules = insert group r rules

-- AddGroup: whether the group exists, and the manager.
unfoldable pub add_group :
    String → Option GroupMetadata → ComponentCallbackManager → Bool × ComponentCallbackManager
add_group group rules man = if has_key (lookup group man.groups) then (true, man) else (
  false,
  record man { groups = insert group [] man.groups; rules = with_rules group rules man.rules },
)

unfoldable pub close :
    String → ComponentCallbacks → Option Interaction → ComponentCallbackManager → Outcome
unfolding closing forget
close group c i man = elim (closing group c i) [
  | some e ↦ (some e, man)
  | none ↦ (none, forget group c.intxn_id man)
]

-- The end of TryRun, from the callback's return.
unfoldable pub finish_run :
    String
    → ComponentCallbacks
    → Interaction
    → String
    → Returned
    → ComponentCallbackManager
    → Outcome
unfolding close
finish_run group c i cid r man =
    if r.failed
    then (some callback_failed, man)
    else if r.done && not (cid == close_id group)
    then close group c (some i) man
    else (none, man)

-- TryRun from the callbacks of the interaction. The flag says that they were busy.
unfoldable pub run :
    String → Option ComponentCallbacks → Interaction → ComponentCallbackManager → Bool × Outcome
unfolding finish_run
run group none i man = (false, (some no_callback, man))
run group (some c) i man = if c.busy then (true, (none, man)) else elim i.custom_id [
  | none ↦ (false, (some bad_type, man))
  | some cid ↦ elim (lookup cid c.callbacks) [
    | none ↦ (false, (some unknown_id, man))
    | some f ↦ (false, finish_run group c i cid (f (some i)) man)
  ]
]

unfoldable pub try_run : Interaction → ComponentCallbackManager → Bool × Outcome
unfolding run
try_run i man = elim (lookup i.user_id man.inverse) [
  | none ↦ (false, (some unregistered, man))
  | some group ↦ run group (lookup i.user_id (members group man)) i man
]
