-- ===== src/Tests/Stores.antt =====
-- The theorems on the dictionaries, the ranks, the components and the sets at concrete inputs.
use poll_bot.Common.Int.{pos}
use poll_bot.Common.{
  ℕ, ◌≡◌, refl, Bool, true, false, Option, none, some, [], ◌∷◌, String, string_comparable,
  nat_comparable, Bytes, ◌==◌, if◌then◌else◌,
}
use poll_bot.Common.GoMap.{lookup, insert, erase}
use poll_bot.FileDict.{Json, FileDict, sync_write, sync_read, get}
use poll_bot.FileDict.RoundTrip.{sync_read-sync_write}
use poll_bot.Access.{Rank, AuthManager, modrank}
use poll_bot.Access.Ranks.{Change, modrank-Change}
use poll_bot.Components.{
  Interaction, Callback, ComponentCallbacks, GroupMetadata, ComponentCallbackManager, members,
  register, forget, closing, add, try_run, close_id, has_key, apply_rules,
}
use poll_bot.Components.Linked.{IsLinked, register-IsLinked, try_run-IsLinked}
use poll_bot.Components.Exclusive.{register-only}
use poll_bot.Datas.Set.{Set}

abbrev json : Json ℕ
json = record { marshal = λ n. some (n ∷ []); unmarshal = first }
  where
    first : Bytes → Option ℕ
    first [] = none
    first (n ∷ s) = some n

json_round : (v : ℕ) (raw : Bytes) → json.marshal v ≡ some raw → json.unmarshal raw ≡ some v
json_round v [] e = absurd (cc e)
json_round v (n ∷ s) e = cc e

abbrev dict : FileDict String ℕ
dict = record { entries = ("a", 1) ∷ ("b", 2) ∷ []; rows = []; closed = false }

written : (sync_write json true true dict).0 ≡ none
unfolding sync_write insert
written = refl

sync_read-sync_write_example :
    ((sync_read json true (sync_write json true true dict).1).0 ≡ none)
    × (get "b" (sync_read json true (sync_write json true true dict).1).1 ≡ get "b" dict)
sync_read-sync_write_example = sync_read-sync_write json json_round true true dict "b" written

abbrev ranks_json : Json Rank
ranks_json = record { marshal = λ r. some []; unmarshal = λ raw. none }

abbrev ranks : AuthManager
ranks = record { entries = ("boss", pos 2) ∷ []; rows = []; closed = false }

modrank-Change_example :
    Change "boss"
      (some "new")
      ranks
      (modrank ranks_json true true "boss" (some "new") (some (pos 1)) ranks).1
      "new"
modrank-Change_example =
    modrank-Change ranks_json true true "boss" (some "new") (some (pos 1)) ranks "new"

abbrev say : Bool → Callback
say done i = record { failed = false; done = done }

abbrev with_close : String → ComponentCallbacks
with_close id = record {
  intxn_id = id;
  callbacks = ("g-close", say true) ∷ ("ok", say true) ∷ [];
  busy = false;
}

abbrev rules : GroupMetadata
rules = record { from_handle = "h"; new_invalidates_old = true; invalidation_closes = true }

abbrev empty_group : ComponentCallbackManager
empty_group = record { groups = ("g", []) ∷ []; inverse = []; rules = ("g", rules) ∷ [] }

empty_group-IsLinked : IsLinked empty_group
unfolding lookup
empty_group-IsLinked j group h = absurd (cc h)

abbrev manager : ComponentCallbackManager
manager = (register "g" (with_close "1") empty_group).1

linked : IsLinked manager
linked = register-IsLinked "g" (with_close "1") empty_group empty_group-IsLinked

abbrev press : Interaction
press = record { user_id = "1"; custom_id = some "ok" }

try_run-IsLinked_example : IsLinked (try_run press manager).1.1
try_run-IsLinked_example = try_run-IsLinked press manager linked

has_rules : lookup "g" manager.rules ≡ some rules
unfolding register lookup apply_rules members forget closing add insert erase
has_rules = refl

registered : (register "g" (with_close "2") manager).0 ≡ none
unfolding register lookup apply_rules members forget closing add insert erase
registered = refl

register-only_example :
    lookup "1" (members "g" (register "g" (with_close "2") manager).1)
    ≡ (if (with_close "2").intxn_id == "1" then some (with_close "2") else none)
register-only_example =
    register-only "g" (with_close "2") manager rules "1" has_rules refl registered

abbrev no_close : ComponentCallbacks
no_close = record { intxn_id = "3"; callbacks = []; busy = false }

grouped : has_key (lookup "g" manager.groups) ≡ true
unfolding register lookup apply_rules members forget closing add insert erase
grouped = refl

without : has_key (lookup (close_id "g") no_close.callbacks) ≡ false
unfolding lookup
without = refl

applied : (apply_rules "g" manager).0 ≡ none
unfolding register lookup apply_rules members forget closing add insert erase
applied = refl

abbrev odd : Set ℕ
odd = (1, tt) ∷ (3, tt) ∷ []

abbrev small : Set ℕ
small = (1, tt) ∷ (2, tt) ∷ []

abbrev two : ℕ
two = 2
