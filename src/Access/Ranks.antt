-- ===== src/Access/Ranks.antt =====
-- Who can change whose rank, and to what.
use poll_bot.Common.Int.{pos}
use poll_bot.Common.{
  ℕ, ◌≡◌, ◌∙◌, refl, subst, ap, Bool, true, false, ◌||◌, Option, none, some, List, [], ◌∷◌,
  string_comparable, ◌==◌, eq_iff, if◌then◌else◌, Bool-cases, inl, inr, arith, ◌⊎◌,
}
use poll_bot.Common.GoMap.{insert, lookup-insert}
use poll_bot.FileDict.{Json, FileDict, Outcome, DictError, is_closed, rows_of, store, sync_write}
use poll_bot.FileDict
use poll_bot.Access.{
  Uid, Rank, AuthManager, at_least, is_known, or_default, get_rank, replied, then_write,
  set_and_write, modrank, done, dict_failed,
}

module _ {V : Type 0} (json : Json V) where
  store-entries :
      (replaced : Bool) (rows : Option (List (Uid × List ℕ))) (t : FileDict Uid V)
      → (store json replaced rows t).1.entries ≡ t.entries
  unfolding store
  store-entries replaced none t = refl
  store-entries replaced (some []) t = refl
  store-entries true (some (row ∷ rows)) t = refl
  store-entries false (some (row ∷ rows)) t = refl

  sync_write-entries :
      (deleted replaced : Bool) (t : FileDict Uid V)
      → (sync_write json deleted replaced t).1.entries ≡ t.entries
  unfolding sync_write
  sync_write-entries deleted replaced t = elim (Bool-cases t.closed) [
    | inl e ↦ simp e
    | inr e ↦ simp e (written deleted)
  ]
    where
      written :
          (deleted : Bool)
          → (if deleted
              then store json replaced (rows_of json t.entries) t
              else (some FileDict.exec_failed, t)).1.entries
            ≡ t.entries
      written true = store-entries replaced (rows_of json t.entries) t
      written false = refl

  replied-entries : (o : Outcome Uid V) → (replied o).1.entries ≡ o.1.entries
  unfolding replied
  replied-entries (some e, t) = refl
  replied-entries (none, t) = refl

  then_write-entries :
      (deleted replaced : Bool) (o : Outcome Uid V)
      → (then_write json deleted replaced o).1.entries ≡ o.1.entries
  unfolding then_write
  then_write-entries deleted replaced (some e, t) = refl
  then_write-entries deleted replaced (none, t) =
      replied-entries (sync_write json deleted replaced t) ∙ sync_write-entries deleted replaced t

  set-entries :
      (id : Uid) (v : V) (t : FileDict Uid V)
      → ((FileDict.set id v t).1.entries ≡ t.entries)
        ⊎ ((FileDict.set id v t).1.entries ≡ insert id v t.entries)
  unfolding FileDict.set
  set-entries id v t = elim (Bool-cases t.closed) [ inl e ↦ inl (simp e) | inr e ↦ inr (simp e) ]

  set_and_write-entries :
      (deleted replaced : Bool) (id : Uid) (v : V) (t : FileDict Uid V)
      → ((set_and_write json deleted replaced id v t).1.entries ≡ t.entries)
        ⊎ ((set_and_write json deleted replaced id v t).1.entries ≡ insert id v t.entries)
  unfolding set_and_write
  set_and_write-entries deleted replaced id v t =
      let kept = then_write-entries deleted replaced (FileDict.set id v t) in
      elim (set-entries id v t) [ inl e ↦ inl (kept ∙ e) | inr e ↦ inr (kept ∙ e) ]

-- What a run of `modrank` does to a user's rank: nothing, or the user is the one to rank, and the
-- rank was below the sender's and is below it now.
pub data Change (sender : Uid) (target : Option Uid) (t t' : AuthManager) (id : Uid) : Type 0 where
  same : get_rank id t' ≡ get_rank id t → Change sender target t t' id
  ranked :
      target ≡ some id
      → at_least (get_rank id t) (get_rank sender t) ≡ false
      → at_least (get_rank id t') (get_rank sender t) ≡ false
      → Change sender target t t' id

get_rank-entries :
    (id : Uid) (t t' : AuthManager) → t'.entries ≡ t.entries → get_rank id t' ≡ get_rank id t
unfolding get_rank FileDict.get
get_rank-entries id t t' e = rw e refl

get_rank-insert :
    (target id : Uid) (rank : Rank) (t t' : AuthManager)
    → t'.entries ≡ insert target rank t.entries
    → get_rank id t' ≡ (if target == id then rank else get_rank id t)
unfolding get_rank FileDict.get
get_rank-insert target id rank t t' e =
    rw (e, lookup-insert target id rank t.entries) (ground arith)

module _ (json : Json Rank) (deleted replaced : Bool) where
  set_and_write-Change :
      (sender target : Uid) (rank : Rank) (t : AuthManager) (id : Uid)
      → at_least rank (get_rank sender t) ≡ false
      → at_least (get_rank target t) (get_rank sender t) ≡ false
      → Change sender (some target) t (set_and_write json deleted replaced target rank t).1 id
  set_and_write-Change sender target rank t id low below =
      let t' = (set_and_write json deleted replaced target rank t).1 in
      elim (set_and_write-entries json deleted replaced target rank t) [
        | inl e ↦ same (get_rank-entries id t t' e)
        | inr e ↦ elim (Bool-cases (target == id)) [
          | inl here ↦
              let is_id = (eq_iff target id).0 here in
              let now : get_rank id t' ≡ rank =
                get_rank-insert target id rank t t' e ∙ rw here refl in
              ranked (ap some is_id)
                (subst (λ j. at_least (get_rank j t) (get_rank sender t) ≡ false) is_id below)
                (rw now low)
          | inr there ↦ same (get_rank-insert target id rank t t' e ∙ rw there refl)
        ]
      ]

  -- `modrank` leaves every user's rank as it was, but that of the user to rank, which changes only
  -- from a rank below the sender's to a rank below the sender's; whatever the file does.
  pub modrank-Change :
      (sender : Uid) (target : Option Uid) (rank : Option Rank) (t : AuthManager) (id : Uid)
      → Change sender target t (modrank json deleted replaced sender target rank t).1 id
  unfolding modrank
  modrank-Change sender none rank t id = same refl
  modrank-Change sender (some target) rank t id =
      let req = or_default (pos 0) rank in
      elim (Bool-cases (is_known req)) [
        | inr e ↦ simp e (same refl)
        | inl e ↦ elim (Bool-cases (at_least req (get_rank sender t))) [
          | inl high ↦ simp (e, high) (same refl)
          | inr low ↦ elim (Bool-cases (at_least (get_rank target t) (get_rank sender t))) [
            | inl above ↦ simp (e, low, above) (same refl)
            | inr below ↦
                simp (e, low, below) (set_and_write-Change sender target req t id low below)
          ]
        ]
      ]

  then_write-ranked :
      (target : Uid) (rank : Rank) (t : AuthManager) (o : Outcome Uid Rank)
      → o ≡ (none, record t { entries = insert target rank t.entries })
      → get_rank target (then_write json deleted replaced o).1 ≡ rank
  then_write-ranked target rank t o e =
      let kept = then_write-entries json deleted replaced o ∙ ap (λ o'. o'.1.entries) e in
      get_rank-insert target target rank t (then_write json deleted replaced o).1 kept
      ∙ ground (arith, eq_iff target target)

  then_write-failed :
      (error : DictError) (t : AuthManager) (o : Outcome Uid Rank)
      → o ≡ (some error, t)
      → (then_write json deleted replaced o).0 ≡ dict_failed error
  unfolding then_write
  then_write-failed error t o e = rw e refl

  set_and_write-ranked :
      (target : Uid) (rank : Rank) (t : AuthManager)
      → (set_and_write json deleted replaced target rank t).0 ≡ done
      → get_rank target (set_and_write json deleted replaced target rank t).1 ≡ rank
  unfolding set_and_write FileDict.set
  set_and_write-ranked target rank t ok =
      let after : Bool → Outcome Uid Rank = (λ closed.
        if closed
        then (some is_closed, t)
        else (none, record t { entries = insert target rank t.entries })) in
      elim (Bool-cases t.closed) [
        | inl e ↦ absurd (cc (then_write-failed is_closed t (after t.closed) (ap after e), ok))
        | inr e ↦ then_write-ranked target rank t (after t.closed) (ap after e)
      ]

  -- A `modrank` that answers that it is done has given the target the rank.
  pub modrank-ranked :
      (sender target : Uid) (rank : Rank) (t : AuthManager)
      → (modrank json deleted replaced sender (some target) (some rank) t).0 ≡ done
      → get_rank target (modrank json deleted replaced sender (some target) (some rank) t).1 ≡ rank
  unfolding modrank
  modrank-ranked sender target rank t ok = elim (Bool-cases (is_known rank)) [
    | inr e ↦ absurd (cc (simp e at ok))
    | inl e ↦
        elim (Bool-cases
          (at_least rank (get_rank sender t) || at_least (get_rank target t) (get_rank sender t))) [
            | inl high ↦ absurd (cc (simp (e, high) at ok))
            | inr low ↦ simp (e, low) (set_and_write-ranked target rank t (simp (e, low) at ok))
          ]
  ]
