-- ===== src/Tests/Loggers.antt =====
-- The theorems on the consumer and the close of the logger at concrete runs.
use mathlib.Core.List.{Sublist}
use poll_bot.Common.{◌+◌, ◌≡◌, refl, ◌⊎◌, true, false, List, [], ◌∷◌, ◌++◌, length, arith}
use poll_bot.Datas.AtomicQueue.Steps.{Event}
use poll_bot.Datas.AtomicQueue.Fifo.{pushes_of, drops_of, all_of}
use poll_bot.Audit.{Entry}
use poll_bot.Audit.Consumer.{
  Place, Closer, Logger, LoggerStep, LoggerSteps, closing_entry, after_queue, after_active,
}
use poll_bot.Audit.Accounts.{taken, new_logger, logger_accounted}
use poll_bot.Audit.Closing.{Ends, IsAsleep, waiting_close-Ends}

-- The queue has taken the last entry, the consumer has handled it and sleeps, and Close has cleared
-- `active` since.
abbrev asleep : Logger
asleep = record {
  queue = record { stored = []; incoming = [] };
  queue_open = true;
  active = false;
  admitted = 0;
  place = Place.awaiting;
  closer = Closer.waiting;
  handled = closing_entry ∷ [];
}

abbrev closing_run : List (Event Entry)
closing_run =
    Event.internal
    ∷ Event.pushed closing_entry
    ∷ Event.internal
    ∷ Event.internal
    ∷ Event.internal
    ∷ Event.internal
    ∷ Event.popped closing_entry
    ∷ Event.internal
    ∷ Event.internal
    ∷ Event.internal
    ∷ Event.internal
    ∷ []

-- A run of a new logger gets there.
reaches_asleep : LoggerSteps 1024 closing_run new_logger asleep
unfolding after_queue after_active
reaches_asleep = LoggerSteps.step (LoggerStep.calls_close refl refl) (
    LoggerSteps.step (LoggerStep.announces refl) (
      LoggerSteps.step (LoggerStep.stores closing_entry [] refl (omega arith)) (
        LoggerSteps.step (LoggerStep.reads_queue refl) (
          LoggerSteps.step (LoggerStep.reads_active refl) (
            LoggerSteps.step (LoggerStep.wakes refl (λ e. cc e)) (
              LoggerSteps.step (LoggerStep.pops closing_entry [] refl refl) (
                LoggerSteps.step (LoggerStep.handles closing_entry refl) (
                  LoggerSteps.step (LoggerStep.reads_queue refl) (
                    LoggerSteps.step (LoggerStep.reads_active refl)
                      (LoggerSteps.step (LoggerStep.clears refl) LoggerSteps.stay))))))))))

abbrev given_up : Logger
given_up = record asleep { closer = Closer.timed_out }

logger_accounted_example :
    Sublist (taken asleep ++ all_of asleep.queue) (pushes_of closing_run)
    × (length (pushes_of closing_run)
        ≡ length (taken asleep) + length (drops_of closing_run) + length (all_of asleep.queue))
logger_accounted_example = logger_accounted reaches_asleep

abbrev busy : Logger
busy = record asleep { place = Place.handling closing_entry; handled = [] }

waiting_close-Ends_example : Ends 1024 busy ⊎ IsAsleep busy
waiting_close-Ends_example =
    waiting_close-Ends 1024 busy (omega arith)
      (record { closer = refl; active = refl; is_open = refl }) (λ e. cc e)
