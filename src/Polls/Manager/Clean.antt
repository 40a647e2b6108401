-- ===== src/Polls/Manager/Clean.antt =====
-- CleanQueue.
use mathlib.Core.List.Perm
use poll_bot.Common.{
  ℕ, suc, ◌+◌, ◌≤◌, ◌≡◌, refl, sym, ◌∙◌, ap, subst, Bool, true, false, not, Option, none, some,
  List, [], ◌∷◌, Perm, string_comparable, length, map, filter_by, length-filter_by-le, length-perm,
  arith, Bool-cases, inl, inr, Option-cases, ◌&&◌,
}
use poll_bot.Common.GoMap.{erase}
use poll_bot.Datas.Set.{Set, has, remove, has-erase}
use poll_bot.FileHeap.{Codec, HeapError, merge_locked, clear_locked}
use poll_bot.FileHeap.Order.{merge_locked-Holds}
use poll_bot.Polls.{Snowflake, Poll, zero_poll, id_of, less}
use poll_bot.Polls.Order.{less-IsStrictWeak}
use poll_bot.Polls.Tables.{mem}
use poll_bot.Polls.Manager.{PollManager, sift, remove_all, rebuild, clean_queue}
use poll_bot.Polls.Manager.Dedup.{bit, times, times-perm, IsDeduped}

has-remove_all :
    (j : Snowflake) (ids : List Snowflake) (s : Set Snowflake)
    → has j (remove_all ids s) ≡ (not (mem j ids) && has j s)
unfolding remove_all remove
has-remove_all j [] s = refl
has-remove_all j (id ∷ ids) s = has-remove_all j ids (erase id s) ∙ ground (arith, has-erase id j s)

filter_all :
    (p : Poll → Bool) (xs : List Poll) → length (filter_by p xs) ≡ length xs → filter_by p xs ≡ xs
filter_all p [] h = refl
filter_all p (x ∷ xs) h = elim (Bool-cases (p x)) [
  | inl e ↦
      let h' : suc (length (filter_by p xs)) ≡ suc (length xs) = rw e at h in
      rw (e, filter_all p xs (omega arith))
  | inr e ↦
      let h' : length (filter_by p xs) ≡ suc (length xs) = rw e at h in
      absurd (omega (arith, length-filter_by-le p xs))
]

module _ (gone : Poll → Bool) where
  abbrev stays : Poll → Bool
  stays p = not (gone p)

  sift-kept : (ps : List Poll) → (sift gone ps).0 ≡ filter_by stays ps
  unfolding sift
  sift-kept [] = refl
  sift-kept (p ∷ ps) = ground (arith, sift-kept ps)

  sift-stale : (ps : List Poll) → (sift gone ps).1 ≡ map id_of (filter_by gone ps)
  unfolding sift
  sift-stale [] = refl
  sift-stale (p ∷ ps) = ground (arith, sift-stale ps)

  sift-length : (ps : List Poll) → length (sift gone ps).0 + length (sift gone ps).1 ≡ length ps
  unfolding sift
  sift-length [] = omega arith
  sift-length (p ∷ ps) = ground (arith, sift-length ps)

  -- The kept polls and the stale ids are those of the queue.
  sift-times :
      (j : Snowflake) (ps : List Poll)
      → times j (sift gone ps).0 + bit (mem j (sift gone ps).1) ≤ times j ps
  unfolding sift
  sift-times j [] = omega arith
  sift-times j (p ∷ ps) = ground (arith, sift-times j ps)

module _ (codec : Codec Poll) (gone : Poll → Bool) where
  -- What CleanQueue did with no error: the queue holds exactly the polls whose message is there,
  -- deduplicated, the set has lost exactly the ids of the others, and the number it returns is how
  -- many it is shorter.
  pub record Cleaned (m m' : PollManager) (dropped : ℕ) : Type 0 where
    pub holds : Perm m'.queue.items (filter_by (λ p. not (gone p)) m.queue.items)
    pub shorter : length m'.queue.items + dropped ≡ length m.queue.items
    pub deduped : IsDeduped m'
    pub forgets :
        (j : Snowflake)
        → has j m'.set ≡ (not (mem j (map id_of (filter_by gone m.queue.items))) && has j m.set)

  module _ (m : PollManager) (v : IsDeduped m) (kept : List Poll)
      (keeps : kept ≡ filter_by (λ p. not (gone p)) m.queue.items) where
    unchanged-Cleaned :
        length kept ≡ length m.queue.items
        → [] ≡ map id_of (filter_by gone m.queue.items)
        → Cleaned m m 0
    unchanged-Cleaned len none_stale = record {
      holds =
          rw (filter_all (λ p. not (gone p)) m.queue.items (ap length (sym keeps) ∙ len)) Perm.rfl;
      shorter = omega arith;
      deduped = v;
      forgets = λ j. ap (λ ids. not (mem j ids) && has j m.set) none_stale;
    }

    rebuilt-Cleaned :
        (written : Bool) (id : Snowflake) (ids : List Snowflake)
        → length kept + length (id ∷ ids) ≡ length m.queue.items
        → ((j : Snowflake) → times j kept + bit (mem j (id ∷ ids)) ≤ times j m.queue.items)
        → id ∷ ids ≡ map id_of (filter_by gone m.queue.items)
        → Cleaned m
            (record m {
              queue =
                  (merge_locked codec less zero_poll written kept
                    (record m.queue { items = []; rows = [] })).1;
              set = remove_all (id ∷ ids) m.set;
            })
            (length (id ∷ ids))
    rebuilt-Cleaned written id ids len count stale =
        let empty = record m.queue { items = []; rows = [] } in
        let h =
          merge_locked-Holds codec less zero_poll less-IsStrictWeak written kept empty
            (λ c p q r. absurd (omega arith)) in
        let items' = (merge_locked codec less zero_poll written kept empty).1.items in
        record {
          holds = subst (λ ks. Perm items' ks) keeps h.same;
          shorter = omega (arith, length-perm h.same);
          deduped = record {
            order = h.order;
            known = λ j.
                ground (
                  arith,
                  times-perm j h.same,
                  count j,
                  v.known j,
                  has-remove_all j (id ∷ ids) m.set,
                );
          };
          forgets = λ j.
              has-remove_all j (id ∷ ids) m.set ∙ ap (λ all. not (mem j all) && has j m.set) stale;
        }

  rebuild-Cleaned :
      (cleared written : Bool) (m : PollManager) (kept : List Poll) (stale : List Snowflake)
      → IsDeduped m
      → kept ≡ filter_by (λ p. not (gone p)) m.queue.items
      → length kept + length stale ≡ length m.queue.items
      → ((j : Snowflake) → times j kept + bit (mem j stale) ≤ times j m.queue.items)
      → stale ≡ map id_of (filter_by gone m.queue.items)
      → (rebuild codec cleared written kept stale m).0.0 ≡ none
      → Cleaned m
          (rebuild codec cleared written kept stale m).1
          (rebuild codec cleared written kept stale m).0.1
  unfolding rebuild clear_locked
  rebuild-Cleaned cleared written m kept [] v keeps len count ids_of ok =
      unchanged-Cleaned m v kept keeps (omega arith) ids_of
  rebuild-Cleaned false written m kept (id ∷ ids) v keeps len count ids_of ok = absurd (cc ok)
  rebuild-Cleaned true written m kept (id ∷ ids) v keeps len count ids_of ok =
      let empty = record m.queue { items = []; rows = [] } in
      elim (Option-cases (merge_locked codec less zero_poll written kept empty).0) [
        | inl e ↦ rw (e, rebuild) (rebuilt-Cleaned m v kept keeps written id ids len count ids_of)
        | inr (x, e) ↦
            absurd
              (cc (let h : ◌≡◌ {A = Option HeapError} (some x) none = rw (e, rebuild) at ok in h))
      ]

  pub clean_queue-Cleaned :
      (cleared written : Bool) (m : PollManager)
      → IsDeduped m
      → (clean_queue codec gone cleared written m).0.0 ≡ none
      → Cleaned m
          (clean_queue codec gone cleared written m).1
          (clean_queue codec gone cleared written m).0.1
  unfolding clean_queue
  clean_queue-Cleaned cleared written m v ok =
      rebuild-Cleaned cleared written m (sift gone m.queue.items).0 (sift gone m.queue.items).1 v
        (sift-kept gone m.queue.items) (sift-length gone m.queue.items)
        (λ j. sift-times gone j m.queue.items) (sift-stale gone m.queue.items) ok
