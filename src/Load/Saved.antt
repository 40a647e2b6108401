-- ===== src/Load/Saved.antt =====
-- What becomes of the polls that backend/core/root/commands/loadchannel finds.
use poll_bot.Common.{
  subst, ℕ, zero, suc, ◌≤◌, ◌≡◌, refl, sym, ap, ◌∙◌, Bool, true, false, Option, some, List, [], ◌∷◌,
  get_elem?, arith, Bool-cases, inl, inr, string_comparable, eq_refl,
}
use poll_bot.FileHeap.{Codec}
use poll_bot.Polls.{Snowflake, Poll, DiscordMessage, Reply, from}
use poll_bot.Polls.Manager.Dedup.{times}
use poll_bot.Polls.Batch.Held.{IsSound, held, push-IsSound, push-keeps, push-holds}
use poll_bot.Load.{
  Interaction, ChannelMessage, LoadState, share_state, i_load_continue, i_load_stop, i_close,
  close_shared, save, polls_of,
}

-- A callback of the interaction, with what it meets
pub data Call : Type 0 where
  presses_continue : Bool → Bool → (ℕ → Bool) → Reply (List ChannelMessage) → Interaction → Call
  presses_stop : Bool → Interaction → Call
  closes : Bool → Bool → Bool → Option Interaction → Call

times-polls_of :
    (guild : Snowflake) (ms : List DiscordMessage) (k : ℕ) (m : DiscordMessage)
    → get_elem? ms k ≡ some m
    → 1 ≤ times m.id (polls_of guild ms)
unfolding from
times-polls_of guild [] k m found = absurd (cc found)
times-polls_of guild (x ∷ ms) zero m found =
    let same : x ≡ m = cc found in ground (arith, ap (λ y. y.id) same, eq_refl m.id)
times-polls_of guild (x ∷ ms) (suc k) m found = ground (arith, times-polls_of guild ms k m found)

continue_stopped :
    (asked stopped_now : Bool) (works : ℕ → Bool) (reply : Reply (List ChannelMessage))
    (i : Interaction) (s : LoadState)
    → s.stopped ≡ true
    → (i_load_continue asked stopped_now works reply i s).state ≡ s
unfolding i_load_continue
continue_stopped asked stopped_now works reply i s over = simp over refl

stop_state : (works : Bool) (s : LoadState) → (i_load_stop works s).state ≡ s
unfolding i_load_stop
stop_state works s = elim (Bool-cases s.stopped) [
  | inl over ↦ simp over refl
  | inr runs ↦ simp runs refl
]

module _ (codec : Codec Poll) where
  close_stopped :
      (file asked works : Bool) (s : LoadState)
      → s.stopped ≡ true
      → (i_close codec file asked works s).state ≡ s
  unfolding i_close
  close_stopped file asked works s over = simp over refl

  close_running :
      (file asked works : Bool) (i : Interaction) (s : LoadState)
      → s.stopped ≡ false
      → s.interaction ≡ some i
      → i_close codec file asked works s
        ≡ save codec file asked works s.query.polls i (record s { stopped = true })
  unfolding i_close
  close_running file asked works i s running shared =
      simp running
        (ap (λ o. close_shared codec file asked works o (record s { stopped = true })) shared)

  unfoldable pub perform : Call → LoadState → LoadState
  perform (Call.presses_continue asked stopped_now works reply i) s =
      (i_load_continue asked stopped_now works reply i (share_state (some i) s)).state
  perform (Call.presses_stop works i) s = (i_load_stop works (share_state (some i) s)).state
  perform (Call.closes file asked works i) s =
      (i_close codec file asked works (share_state i s)).state

  unfoldable pub perform_all : List Call → LoadState → LoadState
  unfolding perform
  perform_all [] s = s
  perform_all (c ∷ cs) s = perform_all cs (perform c s)

  perform-stopped :
      (c : Call) (s : LoadState)
      → s.stopped ≡ true
      → ((perform c s).stopped ≡ true)
        × ((perform c s).query ≡ s.query)
        × ((perform c s).manager ≡ s.manager)
  unfolding perform
  perform-stopped (Call.presses_continue asked stopped_now works reply i) s over =
      let e = continue_stopped asked stopped_now works reply i (share_state (some i) s) over in
      (ap (λ t. t.stopped) e ∙ over, ap (λ t. t.query) e, ap (λ t. t.manager) e)
  perform-stopped (Call.presses_stop works i) s over =
      let e = stop_state works (share_state (some i) s) in
      (ap (λ t. t.stopped) e ∙ over, ap (λ t. t.query) e, ap (λ t. t.manager) e)
  perform-stopped (Call.closes file asked works i) s over =
      let e = close_stopped file asked works (share_state i s) over in
      (ap (λ t. t.stopped) e ∙ over, ap (λ t. t.query) e, ap (λ t. t.manager) e)

  -- Once the interaction is stopped, no callback, whatever its order, its number and what Discord
  -- answers, changes the found polls or the manager again: what iClose pushed is pushed once.
  pub stopped_for_good :
      (cs : List Call) (s : LoadState)
      → s.stopped ≡ true
      → ((perform_all cs s).query ≡ s.query) × ((perform_all cs s).manager ≡ s.manager)
  unfolding perform_all
  stopped_for_good [] s over = (refl, refl)
  stopped_for_good (c ∷ cs) s over =
      let (still, query, manager) = perform-stopped c s over in
      let (query', manager') = stopped_for_good cs (perform c s) still in
      (query' ∙ query, manager' ∙ manager)

  save-saves :
      (file asked works : Bool) (ms : List DiscordMessage) (i : Interaction) (s : LoadState) (k : ℕ)
      (m : DiscordMessage)
      → IsSound s.manager
      → get_elem? ms k ≡ some m
      → held m.id (save codec file asked works ms i s).state.manager ≡ true
  unfolding save
  save-saves file asked works [] i s k m sound found = absurd (cc found)
  save-saves file asked works (x ∷ ms) i s k m sound found =
      push-holds codec file asked (polls_of i.guild (x ∷ ms)) s.manager sound m.id
        (times-polls_of i.guild (x ∷ ms) k m found)

  save-keeps :
      (file asked works : Bool) (ms : List DiscordMessage) (i : Interaction) (s : LoadState)
      → IsSound s.manager
      → IsSound (save codec file asked works ms i s).state.manager
        × ((j : Snowflake)
            → held j s.manager ≡ true
            → held j (save codec file asked works ms i s).state.manager ≡ true)
        × ((save codec file asked works ms i s).state.stopped ≡ s.stopped)
  unfolding save
  save-keeps file asked works [] i s sound = (sound, λ j before. before, refl)
  save-keeps file asked works (x ∷ ms) i s sound = (
    push-IsSound codec file asked (polls_of i.guild (x ∷ ms)) s.manager sound,
    push-keeps codec file asked (polls_of i.guild (x ∷ ms)) s.manager sound,
    refl,
  )

  -- iClose of an interaction that is not stopped, on a sound manager: every poll that was found is
  -- then queued or has its results, every id that was so before still is, the manager is sound, and
  -- the interaction is stopped; whether or not the rows of the queue could be written.
  pub i_close-saves :
      (file asked works : Bool) (i : Interaction) (s : LoadState)
      → s.stopped ≡ false
      → s.interaction ≡ some i
      → IsSound s.manager
      → let s' = (i_close codec file asked works s).state in
        ((k : ℕ) (m : DiscordMessage)
          → get_elem? s.query.polls k ≡ some m
          → held m.id s'.manager ≡ true)
        × ((j : Snowflake) → held j s.manager ≡ true → held j s'.manager ≡ true)
        × IsSound s'.manager
        × (s'.stopped ≡ true)
  i_close-saves file asked works i s running shared sound =
      let shut : LoadState = record s { stopped = true } in
      let ms = s.query.polls in
      let (kept_sound, keeps, stops) = save-keeps file asked works ms i shut sound in
      let e = sym (ap (λ r. r.state) (close_running file asked works i s running shared)) in
      (
        λ k m found.
            subst (λ t. held m.id t.manager ≡ true) e
              (save-saves file asked works ms i shut k m sound found),
        λ j before. subst (λ t. held j t.manager ≡ true) e (keeps j before),
        subst (λ t. IsSound t.manager) e kept_sound,
        subst (λ t. t.stopped ≡ true) e stops,
      )
