-- ===== src/Load/Timeouts.antt =====
-- The time outs of Continue in backend/core/root/commands/loadchannel/interaction.go.
use poll_bot.Common.{
  ℕ, ◌≤◌, ◌≡◌, refl, Bool, true, false, List, Option-cases, arith, Bool-cases, inl, inr,
}
use poll_bot.Polls.{Reply, got, failed}
use poll_bot.Load.{
  Interaction, ChannelMessage, LoadState, Query, Returned, returned, panicked, expired,
  i_load_continue, continue_fetch, continue_with, with_report, insert_polls, fetching_timeout_s,
  interaction_idle_timeout_s,
}

-- Whether the callback asks TryRun to close
abbrev pub asks_to_close : Returned → Bool
asks_to_close (returned close error) = close
asks_to_close panicked = false

in_time :
    (i : Interaction) (s : LoadState) (diff : ℕ)
    → s.last_interact ≤ i.time
    → expired i.time s.last_interact diff ≡ false
unfolding expired
in_time i s diff later = ground (arith, later)

report-stays :
    (works : Bool) (q : Query) (s : LoadState)
    → asks_to_close (with_report works q s).result ≡ false
unfolding with_report
report-stays works q s = elim (Option-cases q.oldest) [
  | inl e ↦ rw (e, with_report) refl
  | inr (m, e) ↦ rw (e, with_report) refl
]

with-stays :
    (asked stopped_now works : Bool) (msgs : List ChannelMessage) (i : Interaction) (s : LoadState)
    → s.last_interact ≤ i.time
    → asks_to_close (continue_with asked stopped_now works msgs i s).result ≡ false
unfolding continue_with
with-stays asked true works msgs i s later = refl
with-stays asked false works msgs i s later =
    simp (in_time i s fetching_timeout_s later)
      (report-stays works (insert_polls asked s.manager msgs s.query) _)

fetch-stays :
    (asked stopped_now works : Bool) (reply : Reply (List ChannelMessage)) (i : Interaction)
    (s : LoadState)
    → s.last_interact ≤ i.time
    → asks_to_close (continue_fetch asked stopped_now works reply i s).result ≡ false
unfolding continue_fetch
fetch-stays asked stopped_now works (failed e) i s later = refl
fetch-stays asked stopped_now works (got msgs) i s later =
    with-stays asked stopped_now works msgs i s later

-- A press of Continue never ends the interaction, however long it has been idle: `expired` is
-- asked whether the press is long before the command that began the interaction, and a press comes
-- after it.
pub continue_never_closes :
    (asked stopped_now : Bool) (works : ℕ → Bool) (reply : Reply (List ChannelMessage))
    (i : Interaction) (s : LoadState)
    → s.last_interact ≤ i.time
    → asks_to_close (i_load_continue asked stopped_now works reply i s).result ≡ false
unfolding i_load_continue
continue_never_closes asked stopped_now works reply i s later = elim (Bool-cases s.stopped) [
  | inl over ↦ simp over refl
  | inr runs ↦ elim (Bool-cases (works 0)) [
    | inl accepted ↦
        simp (runs, accepted, in_time i s interaction_idle_timeout_s later)
          (fetch-stays asked stopped_now (works 1) reply i s later)
    | inr refused ↦ simp (runs, refused, in_time i s interaction_idle_timeout_s later) refl
  ]
]
