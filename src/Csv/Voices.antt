-- ===== src/Csv/Voices.antt =====
-- What the loop over the answers of one record gathers, record by record: the choices, the count of
-- votes, and the users in the order of their first vote.
use poll_bot.Common.{
  ℕ, ◌+◌, ◌≡◌, refl, sym, ap, ◌∙◌, Bool, true, false, ◌&&◌, ◌||◌, Option, none, some, List, [], ◌∷◌,
  ◌++◌, string_comparable, bytes_comparable, ◌==◌, eq_iff, Bytes, if◌then◌else◌, length, arith,
  Bool-cases, inl, inr,
}
use poll_bot.Common.GoMap.{GoMap, lookup, lookup-insert, or_else}
use poll_bot.Polls.{Snowflake}
use poll_bot.Polls.Tables.{RecordAnswer, mem}
use poll_bot.Access.{AliasManager}
use poll_bot.Csv.Text.{utf8}
use poll_bot.Csv.Rating.{not_available, match_rating, score}
use poll_bot.Csv.{
  Votes, name_of, with_user, add_user, add_vote, add_votes, add_answer, if_match, gather,
}

abbrev pub is_match : Option Bytes → Bool
is_match none = false
is_match (some segment) = true

abbrev pub score_match : Option Bytes → Option Bytes
score_match none = none
score_match (some segment) = score segment

-- Whether each title is that of a rating
unfoldable pub is_rated : List RecordAnswer → Bool
is_rated [] = true
is_rated (a ∷ answers) = is_match (match_rating (utf8 a.title)) && is_rated answers

-- The score of the last answer that the user is a voter of, among those with a score
unfoldable pub choice_of : Snowflake → List RecordAnswer → Option Bytes
choice_of id [] = none
choice_of id (a ∷ answers) =
    or_else (choice_of id answers)
      (if mem id a.voters then score_match (match_rating (utf8 a.title)) else none)

abbrev pub numeric : Option Bytes → ℕ → ℕ
numeric none n = 0
numeric (some choice) n = if choice == not_available then 0 else n

-- The votes with a number
unfoldable pub total : List RecordAnswer → ℕ
total [] = 0
total (a ∷ answers) =
    numeric (score_match (match_rating (utf8 a.title))) (length a.voters) + total answers

abbrev pub heard : Option Bytes → List Snowflake → List Snowflake
heard none ids = []
heard (some choice) ids = ids

-- The voters of the answers with a score, up to an answer that is no rating
unfoldable pub voices : List RecordAnswer → List Snowflake
voices [] = []
voices (a ∷ answers) =
    let rest = voices answers in
    if is_match (match_rating (utf8 a.title))
    then heard (score_match (match_rating (utf8 a.title))) a.voters ++ rest
    else []

-- The users of a list, each once, in the order of their first place
unfoldable pub join : List Snowflake → List Snowflake → List Snowflake
join seen [] = seen
join seen (id ∷ ids) = join (if mem id seen then seen else seen ++ id ∷ []) ids

pub join-append : (seen xs ys : List Snowflake) → join seen (xs ++ ys) ≡ join (join seen xs) ys
unfolding join
join-append seen [] ys = refl
join-append seen (x ∷ xs) ys = join-append (if mem x seen then seen else seen ++ x ∷ []) xs ys

mem-snoc : (id j : Snowflake) (xs : List Snowflake) → mem j (xs ++ id ∷ []) ≡ (mem j xs || id == j)
mem-snoc id j [] = ground arith
mem-snoc id j (x ∷ xs) = ground (arith, mem-snoc id j xs)

-- voterNames holds the names of exactly the users of voterOrder.
abbrev pub Named : AliasManager → GoMap Snowflake Bytes → List Snowflake → Type 0
Named aliases names order =
    (id : Snowflake) → lookup id names ≡ (if mem id order then some (name_of aliases id) else none)

module _ (aliases : AliasManager) where
  abbrev Heard : Votes → Votes → List Snowflake → Type 0
  Heard v w ids = Named aliases w.names w.order × (w.order ≡ join v.order ids)

  known_user :
      (id : Snowflake) (v : Votes) (name : Bytes)
      → lookup id v.names ≡ some name
      → add_user aliases id v ≡ v
  unfolding add_user
  known_user id v name e = ap (with_user aliases id v) e

  new_user :
      (id : Snowflake) (v : Votes)
      → lookup id v.names ≡ none
      → add_user aliases id v ≡ with_user aliases id v none
  unfolding add_user
  new_user id v e = ap (with_user aliases id v) e

  add_user-Heard :
      (id : Snowflake) (v : Votes)
      → Named aliases v.names v.order
      → Heard v (add_user aliases id v) (id ∷ [])
  unfolding join
  add_user-Heard id v named = elim (Bool-cases (mem id v.order)) [
    | inl old ↦
        let known : lookup id v.names ≡ some (name_of aliases id) = named id ∙ rw old refl in
        rw (known_user id v (name_of aliases id) known) (named, rw old refl)
    | inr new ↦
        let unknown : lookup id v.names ≡ none = named id ∙ rw new refl in
        rw (new_user id v unknown) (
          λ j.
              lookup-insert id j (name_of aliases id) v.names
              ∙ ground (arith, named j, mem-snoc id j v.order, eq_iff id j),
          rw new refl,
        )
  ]

  kept :
      (id : Snowflake) (v : Votes) (choices : Option Bytes)
      → ((with_user aliases id v choices).choices ≡ v.choices)
        × ((with_user aliases id v choices).count ≡ v.count)
  kept id v none = (refl, refl)
  kept id v (some name) = (refl, refl)

  add_user-kept :
      (id : Snowflake) (v : Votes)
      → ((add_user aliases id v).choices ≡ v.choices) × ((add_user aliases id v).count ≡ v.count)
  unfolding add_user
  add_user-kept id v = kept id v (lookup id v.names)

  add_vote-Heard :
      (choice : Bytes) (id : Snowflake) (v : Votes)
      → Named aliases v.names v.order
      → Heard v (add_vote aliases choice id v) (id ∷ [])
  unfolding add_vote
  add_vote-Heard choice id v named = add_user-Heard id v named

  add_vote-choices :
      (choice : Bytes) (id j : Snowflake) (v : Votes)
      → lookup j (add_vote aliases choice id v).choices
        ≡ (if id == j then some choice else lookup j v.choices)
  unfolding add_vote
  add_vote-choices choice id j v =
      lookup-insert id j choice (add_user aliases id v).choices ∙ rw (add_user-kept id v).0 refl

  add_vote-count :
      (choice : Bytes) (id : Snowflake) (v : Votes)
      → (add_vote aliases choice id v).count ≡ v.count + numeric (some choice) 1
  unfolding add_vote
  add_vote-count choice id v = rw (add_user-kept id v).1 (ground arith)

  add_votes-Heard :
      (choice : Bytes) (ids : List Snowflake) (v : Votes)
      → Named aliases v.names v.order
      → Heard v (add_votes aliases choice ids v) ids
  unfolding add_votes join
  add_votes-Heard choice [] v named = (named, refl)
  add_votes-Heard choice (id ∷ ids) v named =
      let (named', one) = add_vote-Heard choice id v named in
      let (named'', rest) = add_votes-Heard choice ids (add_vote aliases choice id v) named' in
      (named'', rest ∙ ap (λ seen. join seen ids) one)

  add_votes-choices :
      (choice : Bytes) (ids : List Snowflake) (j : Snowflake) (v : Votes)
      → lookup j (add_votes aliases choice ids v).choices
        ≡ (if mem j ids then some choice else lookup j v.choices)
  unfolding add_votes
  add_votes-choices choice [] j v = refl
  add_votes-choices choice (id ∷ ids) j v = ground (
    arith,
    add_votes-choices choice ids j (add_vote aliases choice id v),
    add_vote-choices choice id j v,
  )

  add_votes-count :
      (choice : Bytes) (ids : List Snowflake) (v : Votes)
      → (add_votes aliases choice ids v).count ≡ v.count + numeric (some choice) (length ids)
  unfolding add_votes
  add_votes-count choice [] v = ground arith
  add_votes-count choice (id ∷ ids) v =
      ground (
        arith,
        add_votes-count choice ids (add_vote aliases choice id v),
        add_vote-count choice id v,
      )

  add_answer-Heard :
      (choice : Option Bytes) (ids : List Snowflake) (v : Votes)
      → Named aliases v.names v.order
      → Heard v (add_answer aliases choice ids v) (heard choice ids)
  unfolding add_answer join
  add_answer-Heard none ids v named = (named, refl)
  add_answer-Heard (some choice) ids v named = add_votes-Heard choice ids v named

  add_answer-choices :
      (choice : Option Bytes) (ids : List Snowflake) (j : Snowflake) (v : Votes)
      → lookup j (add_answer aliases choice ids v).choices
        ≡ or_else (if mem j ids then choice else none) (lookup j v.choices)
  unfolding add_answer
  add_answer-choices none ids j v = ground arith
  add_answer-choices (some choice) ids j v = add_votes-choices choice ids j v ∙ ground arith

  add_answer-count :
      (choice : Option Bytes) (ids : List Snowflake) (v : Votes)
      → (add_answer aliases choice ids v).count ≡ v.count + numeric choice (length ids)
  unfolding add_answer
  add_answer-count none ids v = omega arith
  add_answer-count (some choice) ids v = add_votes-count choice ids v

  or_else_assoc : (a b c : Option Bytes) → or_else (or_else a b) c ≡ or_else a (or_else b c)
  or_else_assoc none b c = refl
  or_else_assoc (some a) b c = refl

  -- What `gather` returns for the answers, from a start where the users are named.
  pub record Gathered (answers : List RecordAnswer) (v : Votes) (g : Bool × Votes) : Type 0 where
    pub rated : g.0 ≡ is_rated answers
    pub named : Named aliases g.1.names g.1.order
    pub order : g.1.order ≡ join v.order (voices answers)
    pub count : g.1.count ≡ (if is_rated answers then v.count + total answers else 0)
    pub chosen :
        is_rated answers ≡ true
        → (id : Snowflake)
        → lookup id g.1.choices ≡ or_else (choice_of id answers) (lookup id v.choices)

  gather_step :
      (a : RecordAnswer) (answers : List RecordAnswer) (v : Votes) (m : Option Bytes)
      → match_rating (utf8 a.title) ≡ m
      → Named aliases v.names v.order
      → ((v' : Votes)
          → Named aliases v'.names v'.order
          → Gathered answers v' (gather aliases answers v'))
      → Gathered (a ∷ answers) v (
          if_match m
            (false, record v { count = 0 })
            (λ segment. gather aliases answers (add_answer aliases (score segment) a.voters v)))
  unfolding is_rated voices total choice_of join
  gather_step a answers v none e named next = record {
    rated = rw e refl;
    named = named;
    order = rw e refl;
    count = rw e refl;
    chosen = λ h id. absurd (ground (arith, e));
  }
  gather_step a answers v (some segment) e named next =
      let v' = add_answer aliases (score segment) a.voters v in
      let (named', one) = add_answer-Heard (score segment) a.voters v named in
      let g = next v' named' in
      record {
        rated = rw e g.rated;
        named = g.named;
        order = rw e (
            g.order
            ∙ ap (λ seen. join seen (voices answers)) one
            ∙ sym (join-append v.order (heard (score segment) a.voters) (voices answers)));
        count = rw e (ground (arith, g.count, add_answer-count (score segment) a.voters v));
        chosen = λ h id.
            g.chosen (ground (arith, e, h)) id
            ∙ rw e (
                ap (or_else (choice_of id answers))
                  (add_answer-choices (score segment) a.voters id v)
                ∙ sym (
                    or_else_assoc (choice_of id answers)
                      (if mem id a.voters then score segment else none) (lookup id v.choices)));
      }

  pub gather-Gathered :
      (answers : List RecordAnswer) (v : Votes)
      → Named aliases v.names v.order
      → Gathered answers v (gather aliases answers v)
  unfolding gather is_rated voices total choice_of join
  gather-Gathered [] v named = record {
    rated = refl;
    named = named;
    order = refl;
    count = omega arith;
    chosen = λ h id. refl;
  }
  gather-Gathered (a ∷ answers) v named =
      gather_step a answers v (match_rating (utf8 a.title)) refl named
        (λ v' n. gather-Gathered answers v' n)
