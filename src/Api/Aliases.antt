-- ===== src/Api/Aliases.antt =====
-- backend/core/root/api/alias/alias.go: the handlers over the manager of aliases, and New of
-- managers/aliases, which a start runs on the file. A handler takes whether the bot is there for a
-- request, and the decoded body, nil if it does not decode.
pub mod Restart
use poll_bot.Common.{
  Bool, true, false, not, Option, none, some, List, [], ◌∷◌, ◌++◌, Bytes, string_comparable,
  if◌then◌else◌,
}
use poll_bot.Common.GoMap.{GoMap}
use poll_bot.Login.RateLimit.{Write, header, body}
use poll_bot.Login.Session.{err_write}
use poll_bot.FileDict.{Json, FileDict, Outcome, DictError, sync_write}
use poll_bot.FileDict
use poll_bot.Access.{Uid, AliasManager}

pub record AliasWeb : Type 0 where
  pub id : Uid
  pub alias : Bytes

-- The entries of the manager, in the order in which the map is ranged over
unfoldable pub web_list : GoMap Uid Bytes → List AliasWeb
web_list [] = []
web_list ((id, alias) ∷ m) = record { id = id; alias = alias } ∷ web_list m

-- GetAliases: what is written, and the list that the body encodes.
unfoldable pub get_aliases : Bool → Bool → Bool → AliasManager → List Write × Option (List AliasWeb)
unfolding web_list
get_aliases bot encodes sent t =
    if not bot
    then (err_write 500, none)
    else if not encodes
    then (err_write 500, none)
    else if sent
    then (body ∷ [], some (web_list t.entries))
    else (body ∷ err_write 500, none)

-- A loop that breaks at the first error
abbrev pub or_break : Outcome Uid Bytes → (AliasManager → Outcome Uid Bytes) → Outcome Uid Bytes
or_break (none, t) next = next t
or_break (some e, t) next = (some e, t)

unfoldable pub set_all : List AliasWeb → AliasManager → Outcome Uid Bytes
set_all [] t = (none, t)
set_all (a ∷ updates) t = or_break (FileDict.set a.id a.alias t) (λ t'. set_all updates t')

unfoldable pub drop_all : List Uid → AliasManager → Outcome Uid Bytes
drop_all [] t = (none, t)
drop_all (id ∷ ids) t = or_break (FileDict.drop id t) (λ t'. drop_all ids t')

-- The end of SetAliases and DropAliases, which writes a status after an error too.
abbrev pub answer : Outcome Uid Bytes → List Write × AliasManager
answer (none, t) = (header 200 ∷ [], t)
answer (some e, t) = (err_write 500 ++ header 200 ∷ [], t)

module _ (json : Json Bytes) (deleted replaced : Bool) where
  unfoldable pub write_after : Outcome Uid Bytes → List Write × AliasManager
  write_after changed = answer (or_break changed (λ t. sync_write json deleted replaced t))

  unfoldable pub set_aliases :
      Bool → Option (List AliasWeb) → AliasManager → List Write × AliasManager
  unfolding set_all write_after
  set_aliases false updates t = (err_write 500, t)
  set_aliases true none t = (err_write 400, t)
  set_aliases true (some updates) t = write_after (set_all updates t)

  unfoldable pub drop_aliases : Bool → Option (List Uid) → AliasManager → List Write × AliasManager
  unfolding drop_all write_after
  drop_aliases false ids t = (err_write 500, t)
  drop_aliases true none t = (err_write 400, t)
  drop_aliases true (some ids) t = write_after (drop_all ids t)

-- New of managers/aliases on the rows of a file, where `is_number` is whether strconv.Atoi reads
-- the id.
unfoldable pub new_aliases :
    Json Bytes → Bool → (Uid → Bool) → GoMap Uid Bytes → Option DictError × Option AliasManager
new_aliases json queried is_number rows = FileDict.new json queried (λ id alias. is_number id) rows
