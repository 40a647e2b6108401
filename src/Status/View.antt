-- ===== src/Status/View.antt =====
-- The loop of view_queue in backend/core/root/commands/status/queue.go.

use poll_bot.Common.{ℕ, zero, suc, ◌<◌, ◌≤◌, ◌≡◌, refl, Option, none, some, List, length, arith}
use poll_bot.FileHeap.{Codec, HeapError}
use poll_bot.Polls.{Poll}
use poll_bot.Polls.Manager.{PollManager, get_top_ordered}
use poll_bot.Polls.Manager.Dedup.{IsDeduped}
use poll_bot.Polls.Manager.Clean.{clean_queue-Cleaned}
use poll_bot.Status.{Turn, Viewed, Fetched, fetch_all, retry, conclude, one_turn, view_queue}

module _ (codec : Codec Poll) where
  -- A result of the loop that is no more fuel than polls away
  abbrev pub Ends : Option (Viewed × PollManager) → Type 0
  Ends o = (v : Viewed) × (m : PollManager) × (o ≡ some (v, m))

  retry-Ends :
      (err : Option HeapError) (dropped : ℕ) (m : PollManager)
      (again : Option (Viewed × PollManager))
      → (err ≡ none → 1 ≤ dropped → Ends again)
      → Ends (retry codec err dropped m again)
  unfolding retry
  retry-Ends (some e) dropped m again ends = (_, _, refl)
  retry-Ends none zero m again ends = (_, _, refl)
  retry-Ends none (suc n) m again ends = ends refl (omega arith)

  conclude-Ends :
      (fetched : Fetched) (ps : List Poll) (turn : Turn) (m : PollManager)
      (next : PollManager → Option (Viewed × PollManager))
      → IsDeduped m
      → ((m' : PollManager)
          → IsDeduped m'
          → length m'.queue.items < length m.queue.items
          → Ends (next m'))
      → Ends (conclude codec fetched ps turn m next)
  unfolding conclude
  conclude-Ends (Fetched.all ms) ps turn m next sound ends = (_, _, refl)
  conclude-Ends (Fetched.broken p) ps turn m next sound ends = (_, _, refl)
  conclude-Ends Fetched.missing ps turn m next sound ends =
      retry-Ends _ _ _ _ (λ worked some_dropped.
        let c = clean_queue-Cleaned codec turn.gone turn.cleared turn.written m sound worked in
        ends _ c.deduped (omega (arith, c.shorter, some_dropped)))

  one_turn-Ends :
      (top : Option (List Poll)) (turn : Turn) (m : PollManager)
      (next : PollManager → Option (Viewed × PollManager))
      → IsDeduped m
      → ((m' : PollManager)
          → IsDeduped m'
          → length m'.queue.items < length m.queue.items
          → Ends (next m'))
      → Ends (one_turn codec top turn m next)
  unfolding one_turn
  one_turn-Ends none turn m next sound ends = (_, _, refl)
  one_turn-Ends (some ps) turn m next sound ends =
      conclude-Ends (fetch_all turn.fetch ps) ps turn m next sound ends

  -- view_queue of a deduplicated queue returns, whatever Discord and the file answer at each turn:
  -- one turn more than there are queued polls is enough.
  pub view_queue-Ends :
      (fuel : ℕ) (turns : ℕ → Turn) (i : ℕ) (m : PollManager)
      → IsDeduped m
      → length m.queue.items < fuel
      → Ends (view_queue codec fuel turns i m)
  unfolding view_queue
  view_queue-Ends zero turns i m sound enough = absurd (omega arith)
  view_queue-Ends (suc fuel) turns i m sound enough =
      one_turn-Ends (get_top_ordered codec m) (turns i) m
        (λ m'. view_queue codec fuel turns (suc i) m') sound
        (λ m' sound' fewer. view_queue-Ends fuel turns (suc i) m' sound' (omega arith))
