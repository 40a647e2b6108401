-- ===== src/Session/Gate.antt =====
-- Who gets past the test of the rank.
use poll_bot.Common.{
  ◌≡◌, ◌∙◌, refl, ap, sym, subst, Bool, false, some, List, [], ◌∷◌, String, string_comparable, All,
}
use poll_bot.Common.GoMap.{GoMap, lookup}
use poll_bot.FileDict.{Json}
use poll_bot.Access.{Uid, Rank, done, at_least, get_rank, can_use, modrank}
use poll_bot.Access.Ranks.{modrank-ranked}
use poll_bot.Components.{GroupMetadata, Interaction, group_of, get_metadata}
use poll_bot.Session.{
  Managers, CommandInfo, Incoming, message_component, modal_submit, Handled, level_of,
  with_metadata, with_group, handle, handle_all,
}

-- A press of a component of the user, or the submission of a form
pub data PressOf (id : Uid) : Incoming → Type 0 where
  pressed : (i : Interaction) → i.user_id ≡ id → PressOf id (message_component i)
  submitted : (i : Interaction) → i.user_id ≡ id → PressOf id (modal_submit i)

abbrev pub ArePressesOf : Uid → List Incoming → Type 0
ArePressesOf id xs = All (PressOf id) xs

module _ (handles : GoMap String CommandInfo) where
  with_metadata-below :
      (rules : GroupMetadata) (i : Interaction) (s : Managers)
      → at_least (get_rank i.user_id s.auth) (level_of (lookup rules.from_handle handles)) ≡ false
      → with_metadata handles (some rules) i s ≡ (Handled.not_allowed, s)
  unfolding with_metadata can_use
  with_metadata-below rules i s below = rw below refl

  with_group-below :
      (group : String) (rules : GroupMetadata) (i : Interaction) (s : Managers)
      → group_of i.user_id s.components ≡ some group
      → get_metadata group s.components ≡ some rules
      → at_least (get_rank i.user_id s.auth) (level_of (lookup rules.from_handle handles)) ≡ false
      → with_group handles (group_of i.user_id s.components) i s ≡ (Handled.not_allowed, s)
  unfolding with_group
  with_group-below group rules i s grouped ruled below =
      ap (λ g. with_group handles g i s) grouped
      ∙ ap (λ r. with_metadata handles r i s) ruled
      ∙ with_metadata-below rules i s below

  -- The state where presses of the user are refused
  record IsShut (id : Uid) (s : Managers) : Type 0 where
    group : String
    rules : GroupMetadata
    grouped : group_of id s.components ≡ some group
    ruled : get_metadata group s.components ≡ some rules
    below : at_least (get_rank id s.auth) (level_of (lookup rules.from_handle handles)) ≡ false

  press-refused :
      (id : Uid) (i : Interaction) (s : Managers)
      → i.user_id ≡ id
      → IsShut id s
      → with_group handles (group_of i.user_id s.components) i s ≡ (Handled.not_allowed, s)
  press-refused id i s mine shut =
      let shut' : IsShut i.user_id s = subst (λ j. IsShut j s) (sym mine) shut in
      with_group-below shut'.group shut'.rules i s shut'.grouped shut'.ruled shut'.below

  handle-refused :
      (id : Uid) (s : Managers) {x : Incoming}
      → PressOf id x
      → IsShut id s
      → handle handles x s ≡ (Handled.not_allowed, s)
  unfolding handle
  handle-refused id s (pressed i mine) shut = press-refused id i s mine shut
  handle-refused id s (submitted i mine) shut = press-refused id i s mine shut

  handle_all-refused :
      (id : Uid) (xs : List Incoming) (s : Managers)
      → ArePressesOf id xs
      → IsShut id s
      → All (λ x. handle handles x s ≡ (Handled.not_allowed, s)) xs × (handle_all handles xs s ≡ s)
  unfolding handle_all
  handle_all-refused id [] s all shut = (tt, refl)
  handle_all-refused id (x ∷ xs) s (one, all) shut =
      let here = handle-refused id s one shut in
      let (each, end) = handle_all-refused id xs s all shut in
      ((here, each), ap (λ r. handle_all handles xs r.1) here ∙ end)

  -- A `modrank` that answers that it is done, with a rank below the level of the command of the group
  -- that the target's open interaction is in, locks that interaction: every press and every form of
  -- the target, one after the other, is answered as not allowed, and changes nothing.
  pub modrank-locks :
      (json : Json Rank) (deleted replaced : Bool) (sender id : Uid) (rank : Rank) (group : String)
      (rules : GroupMetadata) (s : Managers) (xs : List Incoming)
      → group_of id s.components ≡ some group
      → get_metadata group s.components ≡ some rules
      → at_least rank (level_of (lookup rules.from_handle handles)) ≡ false
      → (modrank json deleted replaced sender (some id) (some rank) s.auth).0 ≡ done
      → ArePressesOf id xs
      → let s' = record s {
        auth = (modrank json deleted replaced sender (some id) (some rank) s.auth).1;
      } in
        All (λ x. handle handles x s' ≡ (Handled.not_allowed, s')) xs
        × (handle_all handles xs s' ≡ s')
  modrank-locks json deleted replaced sender id rank group rules s xs grouped ruled below ok all =
      let s' : Managers = record s {
        auth = (modrank json deleted replaced sender (some id) (some rank) s.auth).1;
      } in
      let now = modrank-ranked json deleted replaced sender id rank s.auth ok in
      handle_all-refused id xs s' all (record {
        group = group;
        rules = rules;
        grouped = grouped;
        ruled = ruled;
        below = rw now below;
      })
