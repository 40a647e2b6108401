-- ===== src/Api/Aliases/Restart.antt =====
-- What a start of the bot makes of the aliases that the handlers stored.
use poll_bot.Common.{
  ◌≡◌, ◌∙◌, ap, sym, subst, refl, Bool, true, false, Option, none, some, List, [], ◌∷◌, Bytes,
  string_comparable, ◌==◌, eq_iff, eq_refl, All, if◌then◌else◌, Bool-cases, inl, inr, arith,
}
use poll_bot.Common.GoMap.{GoMap, lookup, insert, lookup-insert, or_else}
use poll_bot.Login.RateLimit.{header}
use poll_bot.FileDict.{
  Json, FileDict, Outcome, DictError, invalidated, has_key, scan, all_valid, accept, sync_write,
  sync_read,
}
use poll_bot.FileDict
use poll_bot.FileDict.RoundTrip.{RoundTrips, AllValues, written-rows, read-written}
use poll_bot.Access.{Uid, AliasManager, or_default, get_alias}
use poll_bot.Api.Aliases.{
  AliasWeb, or_break, set_all, answer, write_after, set_aliases, new_aliases,
}

-- The last alias that the updates give for an id
unfoldable pub given : Uid → List AliasWeb → Option Bytes
given id [] = none
given id (a ∷ updates) = or_else (given id updates) (if a.id == id then some a.alias else none)

or_else_if :
    (later before : Option Bytes) (same : Bool) (alias : Bytes)
    → or_else later (if same then some alias else before)
      ≡ or_else (or_else later (if same then some alias else none)) before
or_else_if none before true alias = refl
or_else_if none before false alias = refl
or_else_if (some a) before same alias = refl

set_open :
    (id : Uid) (alias : Bytes) (t : AliasManager)
    → t.closed ≡ false
    → FileDict.set id alias t ≡ (none, record t { entries = insert id alias t.entries })
unfolding FileDict.set
set_open id alias t is_open = simp is_open refl

pub set_all-given :
    (updates : List AliasWeb) (t : AliasManager) (id : Uid)
    → t.closed ≡ false
    → ((set_all updates t).0 ≡ none)
      × ((set_all updates t).1.closed ≡ false)
      × (FileDict.get id (set_all updates t).1 ≡ or_else (given id updates) (FileDict.get id t))
unfolding set_all given FileDict.get
set_all-given [] t id is_open = (refl, is_open, refl)
set_all-given (a ∷ updates) t id is_open =
    let t' : AliasManager = record t { entries = insert a.id a.alias t.entries } in
    let (fine, is_open', rest) = set_all-given updates t' id is_open in
    rw (set_open a.id a.alias t is_open) (
      fine,
      is_open',
      rest
          ∙ ap (or_else (given id updates)) (lookup-insert a.id id a.alias t.entries)
          ∙ or_else_if (given id updates) (lookup id t.entries) (a.id == id) a.alias,
    )

invalid_key :
    (json : Json Bytes) (is_number : Uid → Bool) (m : GoMap Uid Bytes) (id : Uid)
    → has_key (lookup id m) ≡ true
    → is_number id ≡ false
    → all_valid json (λ j alias. is_number j) m ≡ false
unfolding all_valid lookup
invalid_key json is_number [] id found bad = absurd (ground arith)
invalid_key json is_number ((j, v) ∷ m) id found bad = elim (Bool-cases (j == id)) [
  | inl same ↦ ground (arith, eq_iff j id, same, bad)
  | inr other ↦
      ground
        (arith, other, found, invalid_key json is_number m id (ground (arith, other, found)) bad)
]

valid_keys :
    (json : Json Bytes) (is_number : Uid → Bool) (m : GoMap Uid Bytes)
    → ((id : Uid) → has_key (lookup id m) ≡ true → is_number id ≡ true)
    → all_valid json (λ j alias. is_number j) m ≡ true
unfolding all_valid lookup
valid_keys json is_number [] numbers = refl
valid_keys json is_number ((j, v) ∷ m) numbers =
    let first : is_number j ≡ true = numbers j (ground (arith, eq_refl j)) in
    let rest : all_valid json (λ i alias. is_number i) m ≡ true =
      valid_keys json is_number m (λ id found. numbers id (ground (arith, found))) in
    rw first rest

or_break_fine :
    (o : Outcome Uid Bytes) (next : AliasManager → Outcome Uid Bytes)
    → o.0 ≡ none
    → or_break o next ≡ next o.1
or_break_fine (none, t) next fine = refl
or_break_fine (some e, t) next fine = absurd (cc fine)

has_key-or_else : (o o' : Option Bytes) → has_key o ≡ true → has_key (or_else o o') ≡ true
has_key-or_else (some alias) o' e = refl
has_key-or_else none o' e = absurd (cc e)

answer-fine :
    (o : Outcome Uid Bytes) → (answer o).0 ≡ header 200 ∷ [] → (o.0 ≡ none) × ((answer o).1 ≡ o.1)
answer-fine (none, t) e = (refl, refl)
answer-fine (some err, t) e = absurd (cc e)

module _ (json : Json Bytes) where
  fresh_read :
      (t : AliasManager)
      → t.closed ≡ false
      → sync_read json true (record { entries = []; rows = t.rows; closed = false })
        ≡ sync_read json true t
  unfolding sync_read
  fresh_read t is_open =
      ap
        (λ shut.
          let (err, m) = scan json t.rows in
          let read : Outcome Uid Bytes =
            (err, record { entries = m; rows = t.rows; closed = shut }) in
          read)
        (sym is_open)
      ∙ simp is_open refl

  accept-valid :
      (valid : Uid → Bytes → Bool) (o : Outcome Uid Bytes)
      → o.0 ≡ none
      → all_valid json valid o.1.entries ≡ true
      → accept json valid o ≡ (none, some o.1)
  unfolding accept
  accept-valid valid (none, t) fine good = rw good refl
  accept-valid valid (some e, t) fine good = absurd (cc fine)

  accept-invalid :
      (valid : Uid → Bytes → Bool) (o : Outcome Uid Bytes)
      → o.0 ≡ none
      → all_valid json valid o.1.entries ≡ false
      → accept json valid o ≡ (some invalidated, none)
  unfolding accept
  accept-invalid valid (none, t) fine bad = rw bad refl
  accept-invalid valid (some e, t) fine bad = absurd (cc fine)

insert-AllValues :
    (is_text : Bytes → Bool) (id : Uid) (alias : Bytes) (m : GoMap Uid Bytes)
    → is_text alias ≡ true
    → AllValues is_text m
    → AllValues is_text (insert id alias m)
unfolding insert
insert-AllValues is_text id alias [] text texts = (text, tt)
insert-AllValues is_text id alias ((j, old) ∷ m) text (old_text, texts) =
    elim (Bool-cases (j == id)) [
      | inl same ↦ rw same (text, texts)
      | inr other ↦ rw other (old_text, insert-AllValues is_text id alias m text texts)
    ]

set_all-AllValues :
    (is_text : Bytes → Bool) (updates : List AliasWeb) (t : AliasManager)
    → t.closed ≡ false
    → All (λ a. is_text a.alias ≡ true) updates
    → AllValues is_text t.entries
    → AllValues is_text (set_all updates t).1.entries
unfolding set_all
set_all-AllValues is_text [] t is_open given old = old
set_all-AllValues is_text (a ∷ updates) t is_open (first, rest) old =
    let t' : AliasManager = record t { entries = insert a.id a.alias t.entries } in
    rw (set_open a.id a.alias t is_open) (
      set_all-AllValues is_text updates t' is_open rest
        (insert-AllValues is_text a.id a.alias t.entries first old))

-- `is_text` are the aliases that JSON keeps, those that are UTF-8.
module _ (json : Json Bytes) (is_text : Bytes → Bool) (round : RoundTrips json is_text)
    (is_number : Uid → Bool) (deleted replaced : Bool) (updates : List AliasWeb) (t : AliasManager)
    (is_open : t.closed ≡ false) (texts : All (λ a. is_text a.alias ≡ true) updates)
    (old_texts : AllValues is_text t.entries)
    (stored : (set_aliases json deleted replaced true (some updates) t).0 ≡ header 200 ∷ []) where
  abbrev after : AliasManager
  after = (set_aliases json deleted replaced true (some updates) t).1

  abbrev set : AliasManager
  set = (set_all updates t).1

  written :
      ((sync_write json deleted replaced set).0 ≡ none)
      × (after ≡ (sync_write json deleted replaced set).1)
  unfolding set_aliases write_after
  written =
      let done : or_break (set_all updates t) (λ t'. sync_write json deleted replaced t')
          ≡ sync_write json deleted replaced set =
        or_break_fine (set_all updates t) (λ t'. sync_write json deleted replaced t')
          (set_all-given updates t "" is_open).0 in
      let (fine, same) =
        answer-fine (sync_write json deleted replaced set)
          (subst (λ o. (answer o).0 ≡ header 200 ∷ []) done stored) in
      (fine, ap (λ o. (answer o).1) done ∙ same)

  set_texts : AllValues is_text set.entries
  set_texts = set_all-AllValues is_text updates t is_open texts old_texts

  abbrev read : Outcome Uid Bytes
  read = sync_read json true (sync_write json deleted replaced set).1

  read_fine : read.0 ≡ none
  read_fine = (read-written json is_text round deleted replaced set "" set_texts written.0).0

  read_get : (id : Uid) → FileDict.get id read.1 ≡ or_else (given id updates) (FileDict.get id t)
  read_get id =
      (read-written json is_text round deleted replaced set id set_texts written.0).1
      ∙ (set_all-given updates t id is_open).2

  started : new_aliases json true is_number after.rows ≡ accept json (λ id alias. is_number id) read
  unfolding new_aliases FileDict.new
  started =
      ap
        (λ (u : AliasManager).
          accept json (λ id alias. is_number id)
            (sync_read json true (record { entries = []; rows = u.rows; closed = false })))
        written.1
      ∙ ap (accept json (λ id alias. is_number id)) (
          fresh_read json (sync_write json deleted replaced set).1
            (written-rows json is_text round deleted replaced set written.0).1)

  -- Where json.Unmarshal undoes json.Marshal on the aliases given and stored before, the handler of
  -- SetAliases answers with 200 alone on an open manager, and each id that then has an alias is a
  -- number, a start on the file finds for each id the last alias that was given for it, and the old
  -- one where none was.
  pub set_aliases-restart :
      ((id : Uid)
        → has_key (or_else (given id updates) (FileDict.get id t)) ≡ true
        → is_number id ≡ true)
      → (started : AliasManager) × (new_aliases json true is_number after.rows
          ≡ (none, some started))
        × ((id : Uid)
            → get_alias id started
              ≡ or_default (b'?' ∷ []) (or_else (given id updates) (FileDict.get id t)))
  unfolding get_alias FileDict.get
  set_aliases-restart numbers = (
    read.1,
    started
        ∙ accept-valid json (λ id alias. is_number id) read read_fine
            (valid_keys json is_number read.1.entries
              (λ id found. numbers id (subst (λ o. has_key o ≡ true) (read_get id) found))),
    λ id. ap (or_default (b'?' ∷ [])) (read_get id),
  )

  -- Where json.Unmarshal undoes json.Marshal on the aliases given and stored before, one id among the
  -- updates that is no number makes the next start fail: New refuses the file, though the handler
  -- answered with 200 alone on an open manager.
  pub stray_alias-stops_start :
      (id : Uid)
      → has_key (given id updates) ≡ true
      → is_number id ≡ false
      → new_aliases json true is_number after.rows ≡ (some invalidated, none)
  unfolding FileDict.get
  stray_alias-stops_start id found bad =
      started
      ∙ accept-invalid json (λ j alias. is_number j) read read_fine
          (invalid_key json is_number read.1.entries id
            (subst (λ o. has_key o ≡ true) (sym (read_get id))
              (has_key-or_else (given id updates) (FileDict.get id t) found))
            bad)
