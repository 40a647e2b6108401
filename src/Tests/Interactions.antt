-- ===== src/Tests/Interactions.antt =====
-- The theorems on the handler of interactions at concrete inputs.
use poll_bot.Common.Int.{pos}
use poll_bot.Common.{
  ◌≡◌, refl, Bool, true, false, none, some, List, [], ◌∷◌, String, string_comparable, All,
}
use poll_bot.Common.GoMap.{GoMap, lookup, insert, erase}
use poll_bot.FileDict.{Json, FileDict, sync_write}
use poll_bot.FileDict
use poll_bot.Access.{Rank, AuthManager, done, at_least, is_known, get_rank, set_and_write, modrank}
use poll_bot.Components.{
  Callback, ComponentCallbacks, ComponentCallbackManager, GroupMetadata, Interaction, unknown_id,
  members, group_of, get_metadata, forget, apply_rules, add, register, try_run,
}
use poll_bot.Session.{
  Managers, CommandInfo, Incoming, message_component, modal_submit, Handled, level_of, handle,
  handle_all,
}
use poll_bot.Session.Gate.{pressed, submitted, modrank-locks}
use poll_bot.Session.Takeover.{register-takes_over}

abbrev json : Json Rank
json = record { marshal = λ r. some (b'1' ∷ []); unmarshal = λ raw. some (pos 1) }

abbrev auth : AuthManager
auth = record { entries = ("boss", pos 3) ∷ ("1", pos 2) ∷ []; rows = []; closed = false }

abbrev keep : Bool → Callback
keep finished i = record { failed = false; done = finished }

abbrev load : ComponentCallbacks
load = record {
  intxn_id = "1";
  callbacks = ("load-close", keep true) ∷ ("load-stop", keep true) ∷ [];
  busy = false;
}

abbrev cred_set : ComponentCallbacks
cred_set = record {
  intxn_id = "1";
  callbacks = ("cred-set-close", keep true) ∷ ("cred-set-modal-submit", keep true) ∷ [];
  busy = false;
}

abbrev invalidating : String → GroupMetadata
invalidating from = record {
  from_handle = from;
  new_invalidates_old = true;
  invalidation_closes = false;
}

abbrev groups : ComponentCallbackManager
groups = record {
  groups = ("load", []) ∷ ("cred-set", []) ∷ [];
  inverse = [];
  rules = ("load", invalidating "load") ∷ ("cred-set", invalidating "credentials") ∷ [];
}

abbrev loading : ComponentCallbackManager
loading = (register "load" load groups).1

abbrev stop : Interaction
stop = record { user_id = "1"; custom_id = some "load-stop" }

registered : (register "cred-set" cred_set loading).0 ≡ none
unfolding register lookup apply_rules members forget add insert erase
registered = refl

held : lookup "1" (members "load" loading) ≡ some load
unfolding register lookup apply_rules members forget add insert erase
held = refl

no_stop : lookup "load-stop" cred_set.callbacks ≡ none
unfolding lookup
no_stop = refl

register-takes_over_example :
    let man' = (register "cred-set" cred_set loading).1 in
    (lookup "1" (members "load" man') ≡ some load)
    × (try_run stop man' ≡ (false, (some unknown_id, man')))
register-takes_over_example =
    register-takes_over "cred-set" "load" "load-stop" cred_set load loading stop refl registered
      refl held refl refl no_stop

-- The level of `load` is MANAGE.
abbrev handles : GoMap String CommandInfo
handles = ("load", record { min_trust_level = pos 1; callback = λ id s. (false, s) }) ∷ []

abbrev opened : Managers
opened = record { auth = auth; components = loading }

grouped : group_of "1" loading ≡ some "load"
unfolding group_of register lookup apply_rules members forget add insert erase
grouped = refl

ruled : get_metadata "load" loading ≡ some (invalidating "load")
unfolding get_metadata register lookup apply_rules members forget add insert erase
ruled = refl

below : at_least (pos 0) (level_of (lookup "load" handles)) ≡ false
unfolding lookup at_least
below = refl

demoted : (modrank json true true "boss" (some "1") (some (pos 0)) auth).0 ≡ done
unfolding modrank get_rank at_least is_known set_and_write FileDict.get FileDict.set sync_write
    lookup insert
demoted = refl

abbrev presses : List Incoming
presses = message_component stop ∷ (modal_submit stop ∷ [])

modrank-locks_example :
    let s' = record opened {
      auth = (modrank json true true "boss" (some "1") (some (pos 0)) auth).1;
    } in
    All (λ x. handle handles x s' ≡ (Handled.not_allowed, s')) presses
    × (handle_all handles presses s' ≡ s')
modrank-locks_example =
    modrank-locks handles json true true "boss" "1" (pos 0) "load" (invalidating "load") opened
      presses grouped ruled below demoted (pressed stop refl, (submitted stop refl, tt))
