-- ===== src/Load.antt =====
-- backend/core/root/commands/loadchannel: the interaction that looks through a channel for polls. A
-- callback is one step, save that others may stop the interaction while Continue waits for Discord.
-- The edits of the reply stand for their contents; `works` says which of them Discord accepts.
pub mod Saved
pub mod Timeouts
use poll_bot.Common.{
  ℕ, zero, suc, ◌+◌, Bool, true, false, ◌||◌, not, Option, none, some, List, [], ◌∷◌, ◌++◌, String,
  length, map, ltb, if◌then◌else◌,
}
use poll_bot.FileHeap.{Codec, HeapError}
use poll_bot.Polls.{
  Snowflake, Poll, DiscordMessage, zero_poll, Reply, got, failed, to_message, from,
}
use poll_bot.Polls.Manager.{PollManager, Pushed, pushed, push_failed, has_poll, push}

abbrev pub fetching_timeout_s : ℕ
fetching_timeout_s = 30

abbrev pub interaction_idle_timeout_s : ℕ
interaction_idle_timeout_s = 90

-- `time` is the timestamp of the id, in seconds.
pub record Interaction : Type 0 where
  pub time : ℕ
  pub guild : Snowflake

-- A message of the channel; one without a poll has nothing to queue.
pub record ChannelMessage : Type 0 where
  pub message : DiscordMessage
  pub is_poll : Bool

pub record Query : Type 0 where
  pub polls : List DiscordMessage
  pub searched : ℕ
  pub oldest : Option DiscordMessage
  pub ignored : ℕ

pub record LoadState : Type 0 where
  pub stopped : Bool
  pub interaction : Option Interaction
  pub query : Query
  pub last_interact : ℕ
  pub manager : PollManager

pub data Edit : Type 0 where
  canceled : Edit
  fetching : Edit
  retry : Edit
  report : ℕ → ℕ → ℕ → Edit
  uploading : Edit
  saved : ℕ → ℕ → Edit
  not_saved : HeapError → Edit

-- What a callback returns (whether to close, and whether there is an error), or its panic.
pub data Returned : Type 0 where
  returned : Bool → Bool → Returned
  panicked : Returned

pub record Ran : Type 0 where
  pub result : Returned
  pub edits : List Edit
  pub state : LoadState

unfoldable pub expired : ℕ → ℕ → ℕ → Bool
expired a b diff = ltb (a + diff) b

-- The poll that insertPolls asks the manager about
abbrev pub bare : DiscordMessage → Poll
bare m = record zero_poll { message = to_message m }

unfoldable pub insert_poll : Bool → PollManager → ChannelMessage → Query → Query
unfolding has_poll
insert_poll asked man msg q =
    let seen = record q { searched = q.searched + 1; oldest = some msg.message } in
    if not msg.is_poll
    then seen
    else if has_poll asked (bare msg.message) man
    then record seen { ignored = q.ignored + 1 }
    else record seen { polls = q.polls ++ msg.message ∷ [] }

unfoldable pub insert_polls : Bool → PollManager → List ChannelMessage → Query → Query
unfolding insert_poll
insert_polls asked man [] q = q
insert_polls asked man (msg ∷ msgs) q = insert_polls asked man msgs (insert_poll asked man msg q)

-- shareState
abbrev pub share_state : Option Interaction → LoadState → LoadState
share_state i s = record s { interaction = i }

-- genSuccessQueryMessage, which reads the oldest message
unfoldable pub with_report : Bool → Query → LoadState → Ran
with_report works q s = elim q.oldest [
  | none ↦ record { result = panicked; edits = []; state = s }
  | some oldest ↦ record {
    result = returned false (not works);
    edits = report q.searched (length q.polls + q.ignored) (length q.polls) ∷ [];
    state = s;
  }
]

-- What a callback does at the end: it answers and leaves the state.
abbrev pub ends : Bool → Bool → List Edit → LoadState → Ran
ends close error edits s = record { result = returned close error; edits = edits; state = s }

abbrev pub after_edit : Edit → Ran → Ran
after_edit e r = record r { edits = e ∷ r.edits }

-- Continue, once the messages are there: `stopped_now` is what the flag says then.
unfoldable pub continue_with :
    Bool → Bool → Bool → List ChannelMessage → Interaction → LoadState → Ran
unfolding expired insert_polls with_report
continue_with asked stopped_now works msgs i s =
    let q = insert_polls asked s.manager msgs s.query in
    if stopped_now
    then ends false false [] s
    else if expired i.time s.last_interact fetching_timeout_s
    then ends true false [] s
    else with_report works q (record s { query = q })

unfoldable pub continue_fetch :
    Bool → Bool → Bool → Reply (List ChannelMessage) → Interaction → LoadState → Ran
unfolding continue_with
continue_fetch asked stopped_now works (failed e) i s = ends false true (retry ∷ []) s
continue_fetch asked stopped_now works (got msgs) i s =
    continue_with asked stopped_now works msgs i s

-- iLoadContinue on the interaction that pressed the button
unfoldable pub i_load_continue :
    Bool → Bool → (ℕ → Bool) → Reply (List ChannelMessage) → Interaction → LoadState → Ran
unfolding expired continue_fetch
i_load_continue asked stopped_now works reply i s =
    if s.stopped
    then ends false (not (works 0)) (canceled ∷ []) s
    else if expired i.time s.last_interact interaction_idle_timeout_s
    then ends true (not (works 0)) (canceled ∷ []) s
    else if not (works 0)
    then ends false true (fetching ∷ retry ∷ []) s
    else after_edit fetching (continue_fetch asked stopped_now (works 1) reply i s)

-- iLoadStop
unfoldable pub i_load_stop : Bool → LoadState → Ran
i_load_stop works s =
    if s.stopped
    then ends true (not works) (canceled ∷ []) s
    else ends true (not works) (uploading ∷ []) s

-- polls.From of each message
abbrev pub polls_of : Snowflake → List DiscordMessage → List Poll
polls_of guild = map (λ m. from m guild)

unfoldable pub is_failed : Pushed → Bool
is_failed (pushed dropped top) = false
is_failed (push_failed e) = true

unfoldable pub push_edit : ℕ → Pushed → Edit
push_edit found (pushed dropped top) = saved dropped found
push_edit found (push_failed e) = not_saved e

module _ (codec : Codec Poll) where
  -- iClose past its debounce; the state is stopped.
  unfoldable pub save : Bool → Bool → Bool → List DiscordMessage → Interaction → LoadState → Ran
  unfolding is_failed push_edit
  save file asked works [] i s = ends true (not works) (canceled ∷ []) s
  save file asked works (m ∷ ms) i s =
      let (result, man) = push codec file asked (polls_of i.guild (m ∷ ms)) s.manager in
      ends true (is_failed result || not works) (push_edit (length (m ∷ ms)) result ∷ [])
        (record s { manager = man })

  unfoldable pub close_shared : Bool → Bool → Bool → Option Interaction → LoadState → Ran
  unfolding save
  close_shared file asked works none s = ends true false [] s
  close_shared file asked works (some i) s = save file asked works s.query.polls i s

  -- iClose
  unfoldable pub i_close : Bool → Bool → Bool → LoadState → Ran
  unfolding close_shared
  i_close file asked works s =
      if s.stopped
      then ends true false [] s
      else close_shared file asked works s.interaction (record s { stopped = true })
