-- ===== src/Session.antt =====
-- backend/core/root/bot/session.go: the handler of interactions that Start adds. A command's callback
-- is a function of the sender and of the managers that it may change. The acknowledgement, the reply
-- of a refusal and the log are left out.
pub mod Gate
pub mod Takeover
use poll_bot.Common.{
  Bool, Option, none, some, List, [], ◌∷◌, String, string_comparable, if◌then◌else◌,
}
use poll_bot.Common.GoMap.{GoMap, lookup}
use poll_bot.Access.{Uid, Rank, AuthManager, default_rank, can_use}
use poll_bot.Components.{
  ComponentCallbackManager, GroupMetadata, CallError, Outcome, Interaction, group_of, get_metadata,
  try_run,
}

-- The managers that a command changes here.
pub record Managers : Type 0 where
  pub auth : AuthManager
  pub components : ComponentCallbackManager

-- `callback` says whether it returns an error, and what it makes of the managers.
pub record CommandInfo : Type 0 where
  pub min_trust_level : Rank
  pub callback : Uid → Managers → Bool × Managers

pub data Incoming : Type 0 where
  application_command : String → Uid → Incoming
  message_component : Interaction → Incoming
  modal_submit : Interaction → Incoming
  other_type : Incoming

-- What the handler did: `called` has whether the callback failed, `tried` what TryRun returned.
pub data Handled : Type 0 where
  ignored : Handled
  refused : Handled
  called : Bool → Handled
  no_group : Handled
  no_metadata : Handled
  not_allowed : Handled
  tried : Bool → Option CallError → Handled

abbrev pub called_with : Bool × Managers → Handled × Managers
called_with (failed, s) = (called failed, s)

abbrev pub tried_with : Managers → Bool × Outcome → Handled × Managers
tried_with s (busy, (e, man)) = (tried busy e, record s { components = man })

-- The level of the command, and that of the zero value if there is none
abbrev pub level_of : Option CommandInfo → Rank
level_of none = default_rank
level_of (some c) = c.min_trust_level

unfoldable pub on_command : Option CommandInfo → Uid → Managers → Handled × Managers
on_command none id s = (ignored, s)
on_command (some c) id s =
    if can_use id c.min_trust_level s.auth then called_with (c.callback id s) else (refused, s)

module _ (handles : GoMap String CommandInfo) where
  unfoldable pub with_metadata : Option GroupMetadata → Interaction → Managers → Handled × Managers
  with_metadata none i s = (no_metadata, s)
  with_metadata (some rules) i s =
      if can_use i.user_id (level_of (lookup rules.from_handle handles)) s.auth
      then tried_with s (try_run i s.components)
      else (not_allowed, s)

  unfoldable pub with_group : Option String → Interaction → Managers → Handled × Managers
  unfolding with_metadata
  with_group none i s = (no_group, s)
  with_group (some group) i s = with_metadata (get_metadata group s.components) i s

  unfoldable pub handle : Incoming → Managers → Handled × Managers
  unfolding on_command with_group
  handle (application_command name id) s = on_command (lookup name handles) id s
  handle (message_component i) s = with_group (group_of i.user_id s.components) i s
  handle (modal_submit i) s = with_group (group_of i.user_id s.components) i s
  handle other_type s = (ignored, s)

  -- The interactions one after the other
  unfoldable pub handle_all : List Incoming → Managers → Managers
  unfolding handle
  handle_all [] s = s
  handle_all (x ∷ xs) s = handle_all xs (handle x s).1
