-- ===== src/Status.antt =====
-- backend/core/root/commands/status/queue.go: the view of the polls that expire next. The turns of
-- the loop are numbered: Discord and the queue's file may answer differently at each. Between two
-- turns nobody else changes the queue.
pub mod View
pub mod Leads
use poll_bot.Common.{
  ℕ, zero, suc, ◌+◌, Bool, true, false, Option, none, some, List, [], ◌∷◌, String, length, ltb,
  nat_beq, if◌then◌else◌, nat_comparable,
}
use poll_bot.Datas.Set.{Set, has, insert_all}
use poll_bot.FileHeap.{Codec, HeapError, len}
use poll_bot.Polls.{Poll, DiscordMessage, Reply, got, failed, http_404, other, less, zero_poll}
use poll_bot.Polls.Manager.{PollManager, get_top_ordered, clean_queue}

-- What one turn of the loop meets: GetData at its own fetches, and in CleanQueue whose message a
-- fetch reports as missing and whether the two statements work.
pub record Turn : Type 0 where
  pub fetch : Poll → Reply DiscordMessage
  pub gone : Poll → Bool
  pub cleared : Bool
  pub written : Bool

pub data Viewed : Type 0 where
  nothing : Viewed
  shown : List DiscordMessage → List Poll → ℕ → Viewed
  get_failed : Poll → Viewed
  clean_failed : HeapError → Viewed
  nothing_dropped : Viewed

-- The loop over the polls on top: their messages, a missing one, or the poll with another error.
pub data Fetched : Type 0 where
  all : List DiscordMessage → Fetched
  missing : Fetched
  broken : Poll → Fetched

abbrev pub with_message : DiscordMessage → Fetched → Fetched
with_message m (all ms) = all (m ∷ ms)
with_message m missing = missing
with_message m (broken p) = broken p

unfoldable pub then_fetch : Poll → Reply DiscordMessage → Fetched → Fetched
then_fetch p (got m) rest = with_message m rest
then_fetch p (failed http_404) rest = missing
then_fetch p (failed other) rest = broken p

unfoldable pub fetch_all : (Poll → Reply DiscordMessage) → List Poll → Fetched
unfolding then_fetch
fetch_all fetch [] = all []
fetch_all fetch (p ∷ ps) = then_fetch p (fetch p) (fetch_all fetch ps)

module _ (codec : Codec Poll) where
  -- After a clean: the result where it failed or dropped nothing, and otherwise another turn.
  unfoldable pub retry :
      Option HeapError
      → ℕ
      → PollManager
      → Option (Viewed × PollManager)
      → Option (Viewed × PollManager)
  retry (some e) dropped m again = some (clean_failed e, m)
  retry none zero m again = some (nothing_dropped, m)
  retry none (suc n) m again = again

  -- After the fetches
  unfoldable pub conclude :
      Fetched
      → List Poll
      → Turn
      → PollManager
      → (PollManager → Option (Viewed × PollManager))
      → Option (Viewed × PollManager)
  unfolding retry
  conclude (all ms) ps turn m next = some (shown ms ps (len codec less zero_poll m.queue), m)
  conclude (broken p) ps turn m next = some (get_failed p, m)
  conclude missing ps turn m next =
      let ((err, dropped), m') = clean_queue codec turn.gone turn.cleared turn.written m in
      retry err dropped m' (next m')

  unfoldable pub one_turn :
      Option (List Poll)
      → Turn
      → PollManager
      → (PollManager → Option (Viewed × PollManager))
      → Option (Viewed × PollManager)
  unfolding conclude fetch_all
  one_turn none turn m next = some (nothing, m)
  one_turn (some ps) turn m next = conclude (fetch_all turn.fetch ps) ps turn m next

  -- view_queue, with `none` where the fuel ends before the loop does.
  unfoldable pub view_queue : ℕ → (ℕ → Turn) → ℕ → PollManager → Option (Viewed × PollManager)
  unfolding one_turn
  view_queue zero turns i m = none
  view_queue (suc fuel) turns i m =
      one_turn (get_top_ordered codec m) (turns i) m (λ m'. view_queue fuel turns (suc i) m')

-- fromMessage

pub record AnswerCount : Type 0 where
  pub id : ℕ
  pub count : ℕ

pub record Leading : Type 0 where
  pub num_votes : ℕ
  pub best_num_votes : ℕ
  pub choice_ids : Set ℕ

-- The loop over AnswerCounts
unfoldable pub lead : AnswerCount → Leading → Leading
lead v l =
    let best = if ltb l.best_num_votes v.count then v.count else l.best_num_votes in
    let kept = if ltb l.best_num_votes v.count then [] else l.choice_ids in
    record {
      num_votes = l.num_votes + v.count;
      best_num_votes = best;
      choice_ids = if nat_beq v.count best then insert_all (v.id ∷ []) kept else kept;
    }

unfoldable pub lead_all : List AnswerCount → Leading → Leading
unfolding lead
lead_all [] l = l
lead_all (v ∷ vs) l = lead_all vs (lead v l)

abbrev pub no_leads : Leading
no_leads = record { num_votes = 0; best_num_votes = 0; choice_ids = [] }

-- The texts of the leading answers, in the order of the answers
unfoldable pub best_choice : Set ℕ → List (ℕ × String) → List String
best_choice ids [] = []
best_choice ids ((id, text) ∷ answers) =
    if has id ids then text ∷ best_choice ids answers else best_choice ids answers
