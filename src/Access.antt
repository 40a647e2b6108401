-- ===== src/Access.antt =====
-- The managers of ranks and of aliases, backend/core/root/managers/authorize and managers/aliases,
-- and the commands that set them, commands/modrank and commands/alias. Each manager is a FileDict.
-- A command's options are given as read: the user, nil if it cannot be fetched, and the value. The
-- replies to Discord are left out but for which one is sent.
pub mod Ranks
use poll_bot.Common.Int.{ℤ, pos, negsuc}
use poll_bot.Common.{
  ℕ, Bool, true, false, ◌&&◌, ◌||◌, not, Option, none, some, List, [], ◌∷◌, String,
  string_comparable, Bytes, leb, length, nat_beq, if◌then◌else◌,
}
use poll_bot.FileDict.{Json, FileDict, Outcome, DictError, sync_write}
use poll_bot.FileDict

abbrev pub Uid : Type 0
Uid = String

abbrev pub Rank : Type 0
Rank = ℤ

-- `DEFAULT`, `MANAGE`, `PROMOTER` and `MANAGER`
abbrev pub default_rank : Rank
default_rank = pos 0

abbrev pub manage : Rank
manage = pos 1

abbrev pub promoter : Rank
promoter = pos 2

abbrev pub manager : Rank
manager = pos 3

abbrev pub AuthManager : Type 0
AuthManager = FileDict Uid Rank

abbrev pub AliasManager : Type 0
AliasManager = FileDict Uid Bytes

-- `>=` on int64.
unfoldable pub at_least : ℤ → ℤ → Bool
at_least (pos m) (pos n) = leb n m
at_least (pos m) (negsuc n) = true
at_least (negsuc m) (pos n) = false
at_least (negsuc m) (negsuc n) = leb m n

-- Whether Stringify knows the rank, so that it is not "UNKNOWN".
unfoldable pub is_known : Rank → Bool
is_known (pos n) = leb n 3
is_known (negsuc n) = false

abbrev pub or_default : {A : Type 0} → A → Option A → A
or_default d none = d
or_default d (some a) = a

unfoldable pub get_rank : Uid → AuthManager → Rank
get_rank id t = or_default default_rank (FileDict.get id t)

unfoldable pub can_use : Uid → Rank → AuthManager → Bool
unfolding get_rank
can_use id rank t = at_least (get_rank id t) rank

unfoldable pub get_alias : Uid → AliasManager → Bytes
get_alias id t = or_default (b'?' ∷ []) (FileDict.get id t)

-- What a command answers: an error, or a message.
pub data Reply : Type 0 where
  no_user : Reply
  dict_failed : DictError → Reply
  unknown_rank refused bad_format done : Reply

unfoldable pub replied : {V : Type 0} → Outcome Uid V → Reply × FileDict Uid V
replied (some e, t) = (dict_failed e, t)
replied (none, t) = (done, t)

unfoldable pub then_write :
    {V : Type 0} → Json V → Bool → Bool → Outcome Uid V → Reply × FileDict Uid V
unfolding replied
then_write json deleted replaced (some e, t) = (dict_failed e, t)
then_write json deleted replaced (none, t) = replied (sync_write json deleted replaced t)

-- The two calls of a manager that a command makes: set, then write.
unfoldable pub set_and_write :
    {V : Type 0} → Json V → Bool → Bool → Uid → V → FileDict Uid V → Reply × FileDict Uid V
unfolding then_write
set_and_write json deleted replaced id v t = then_write json deleted replaced (FileDict.set id v t)

-- The callback of `modrank`; a rank that is not given is 0.
unfoldable pub modrank :
    Json Rank → Bool → Bool → Uid → Option Uid → Option Rank → AuthManager → Reply × AuthManager
unfolding set_and_write get_rank at_least is_known
modrank json deleted replaced sender none rank t = (no_user, t)
modrank json deleted replaced sender (some target) rank t =
    let req = or_default (pos 0) rank in
    let sender_rank = get_rank sender t in
    if not (is_known req)
    then (unknown_rank, t)
    else if at_least req sender_rank || at_least (get_rank target t) sender_rank
    then (refused, t)
    else set_and_write json deleted replaced target req t

-- `[a-zA-Z0-9\.\-_ ]`
unfoldable pub is_alias_char : ℕ → Bool
is_alias_char c =
    (leb b'a' c && leb c b'z')
    || (leb b'A' c && leb c b'Z')
    || (leb b'0' c && leb c b'9')
    || nat_beq c b'.'
    || nat_beq c b'-'
    || nat_beq c b'_'
    || nat_beq c b' '

-- A match of the negated class: some byte is outside, as a byte of a character beyond ASCII is.
unfoldable pub has_bad_char : Bytes → Bool
unfolding is_alias_char
has_bad_char [] = false
has_bad_char (c ∷ s) = not (is_alias_char c) || has_bad_char s

abbrev pub max_alias_len : ℕ
max_alias_len = 24

unfoldable pub failed_formatting : Bytes → Bool
unfolding has_bad_char
failed_formatting s = has_bad_char s && leb (length s) max_alias_len

-- The callback of `alias`; the nickname is given trimmed, and empty if it is not given.
unfoldable pub alias :
    Json Bytes → Bool → Bool → Option Uid → Bytes → AliasManager → Reply × AliasManager
unfolding failed_formatting set_and_write
alias json deleted replaced none nickname t = (no_user, t)
alias json deleted replaced (some user) nickname t =
    if failed_formatting nickname
    then (bad_format, t)
    else set_and_write json deleted replaced user nickname t
