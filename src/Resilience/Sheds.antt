-- ===== src/Resilience/Sheds.antt =====
-- When the breaker opens, and what every operation answers then.
use shortn.Prelude.{
  ℕ, ◌+◌, ◌<◌, ◌≡◌, refl, ap, ◌∙◌, inl, inr, String, true, false, ◌||◌, Option, some, List, [], ◌∷◌,
  length, leb, arith, Bool-cases, if◌then◌else◌,
}
use shortn.Prelude.Int.{ℤ}
use shortn.Error.{
  GoError, sentinel, err_unavailable, err_open_state, err_too_many_requests, errors_is,
}
use shortn.Act.{Result, err, Act, pure, ◌>>=◌, Result-cases}
use shortn.Shortener.{Link}
use shortn.Resilience.{
  Any, nil, link, stats, links, is_expected, is_successful, ready_to_trip, settings, ResilientStore,
  answered, execute, retry_read, create, get_by_code, get_stats, list, delete,
}
use shortn.Resilience.Laws.{Phase, closed, open_until, error_of, BreakerLaws}

-- A call of the store.
pub data Operation : Type 0 where
  creates : Link → Operation
  gets : String → Operation
  counts_clicks : String → Operation
  lists : ℤ → ℤ → Operation
  deletes : String → Operation

module _ {W : Type 0} (s : ResilientStore W) where
  -- The function that the breaker is given.
  abbrev pub guarded : Operation → Act W Any
  guarded (creates l) = s.next.create l >>= λ made. pure (link made)
  guarded (gets code) = retry_read s (s.next.get_by_code code >>= λ l. pure (link l))
  guarded (counts_clicks code) = retry_read s (s.next.get_stats code >>= λ st. pure (stats st))
  guarded (lists limit offset) = retry_read s (s.next.list limit offset >>= λ ls. pure (links ls))
  guarded (deletes code) = s.next.delete code >>= λ _. pure nil

  -- What the caller sees of a call: its error.
  abbrev pub outcome : Operation → W → Option GoError × W
  outcome (creates l) w = let (r, v) = create s l w in (error_of r, v)
  outcome (gets code) w = let (r, v) = get_by_code s code w in (error_of r, v)
  outcome (counts_clicks code) w = let (r, v) = get_stats s code w in (error_of r, v)
  outcome (lists limit offset) w = let (r, v) = list s limit offset w in (error_of r, v)
  outcome (deletes code) w = let (r, v) = delete s code w in (error_of r, v)

  abbrev pub performed : List Operation → W → W
  performed [] w = w
  performed (o ∷ os) w = performed os (outcome o w).1

  -- Every call fails with an error that is not expected.
  abbrev pub AllFail : List Operation → W → Type 0
  AllFail [] w = Unit
  AllFail (o ∷ os) w =
      ((e : GoError) × ((guarded o w).0 ≡ err e) × (is_expected e ≡ false))
      × AllFail os (outcome o w).1

  execute-world : (op : Act W Any) (w : W) → (execute s op w).1 ≡ (s.cb op w).1
  unfolding execute answered
  execute-world op w = elim (Result-cases (s.cb op w).0) [
    | inl (x, p) ↦ rw p
    | inr (e, p) ↦
        elim (Bool-cases (errors_is e err_open_state || errors_is e err_too_many_requests)) [
          | inl own ↦ rw (p, own)
          | inr other ↦ rw (p, other)
        ]
  ]

  then_world :
      {B : Type 0} (op : Act W Any) (f : Any → Result B) (w : W)
      → ((execute s op >>= λ res. λ v. (f res, v)) w).1 ≡ (execute s op w).1
  then_world op f w = elim (Result-cases (execute s op w).0) [
    | inl (x, p) ↦ rw p
    | inr (e, p) ↦ rw p
  ]

  outcome-world : (o : Operation) (w : W) → (outcome o w).1 ≡ (s.cb (guarded o) w).1
  unfolding create get_by_code get_stats list delete
  outcome-world (creates l) w =
      then_world (guarded (creates l)) _ w ∙ execute-world (guarded (creates l)) w
  outcome-world (gets code) w =
      then_world (guarded (gets code)) _ w ∙ execute-world (guarded (gets code)) w
  outcome-world (counts_clicks code) w =
      then_world (guarded (counts_clicks code)) _ w ∙ execute-world (guarded (counts_clicks code)) w
  outcome-world (lists limit offset) w =
      then_world (guarded (lists limit offset)) _ w ∙ execute-world (guarded (lists limit offset)) w
  outcome-world (deletes code) w =
      then_world (guarded (deletes code)) _ w ∙ execute-world (guarded (deletes code)) w

  refused :
      (o : Operation) (w v : W)
      → s.cb (guarded o) w ≡ (err (sentinel err_open_state), v)
      → outcome o w ≡ (some (sentinel err_unavailable), v)
  unfolding create get_by_code get_stats list delete execute answered
  refused (creates l) w v p = rw p
  refused (gets code) w v p = rw p
  refused (counts_clicks code) w v p = rw p
  refused (lists limit offset) w v p = rw p
  refused (deletes code) w v p = rw p

  module _ (phase : W → Phase) (Quiet : W → W → Type 0)
      (laws : BreakerLaws settings s.cb phase Quiet)
      (apart : (o : Operation) (w : W) → phase (guarded o w).1 ≡ phase w) where
    phase-failed :
        (o : Operation) (w : W) (n : ℕ) (e : GoError)
        → phase w ≡ closed n
        → (guarded o w).0 ≡ err e
        → is_expected e ≡ false
        → phase (outcome o w).1 ≡ (if leb 5 (n + 1) then open_until else closed (n + 1))
    unfolding is_successful ready_to_trip
    phase-failed o w n e at p odd =
        rw (outcome-world o w, laws.counts (guarded o) w n at (apart o w), p, odd)

    phase-performed :
        (os : List Operation) (w : W) (n : ℕ)
        → phase w ≡ closed n
        → n < 5
        → n + length os ≡ 5
        → AllFail os w
        → phase (performed os w) ≡ open_until
    phase-performed [] w n at few sum fails = absurd (omega arith)
    phase-performed (o ∷ []) w n at few sum ((e, p, odd), fails) =
        let full : leb 5 (n + 1) ≡ true = ground (arith, sum) in
        phase-failed o w n e at p odd ∙ rw full
    phase-performed (o ∷ (o' ∷ os)) w n at few sum ((e, p, odd), fails) =
        let less : leb 5 (n + 1) ≡ false = ground (arith, sum) in
        let next : phase (outcome o w).1 ≡ closed (n + 1) =
          phase-failed o w n e at p odd ∙ rw less in
        phase-performed (o' ∷ os) (outcome o w).1 (n + 1) next (omega arith) (omega arith) fails

    -- A call that succeeds or fails as expected sets the count back.
    outcome-resets :
        (o : Operation) (w : W) (n : ℕ)
        → phase w ≡ closed n
        → is_successful (error_of (guarded o w).0) ≡ true
        → phase (outcome o w).1 ≡ closed 0
    outcome-resets o w n at fine =
        rw (outcome-world o w, laws.counts (guarded o) w n at (apart o w), fine)

    -- Where the breaker counts no failure: before the first call, and after a call that succeeded or
    -- failed as expected while the breaker was closed.
    pub data IsReset (w : W) : Type 0 where
      fresh : phase w ≡ closed 0 → IsReset w
      after :
          (o : Operation) (v : W) (n : ℕ)
          → phase v ≡ closed n
          → is_successful (error_of (guarded o v).0) ≡ true
          → w ≡ (outcome o v).1
          → IsReset w

    IsReset-phase : {w : W} → IsReset w → phase w ≡ closed 0
    IsReset-phase (fresh e) = e
    IsReset-phase (after o v n at fine e) = rw e (outcome-resets o v n at fine)

    -- Where the breaker counts no failure, five calls of any operations that fail with an error
    -- that is not expected open it: a call of any operation right after them answers
    -- ErrUnavailable and does nothing else, if no operation below touches the breaker itself.
    pub outcome-shed :
        (os : List Operation) (o : Operation) (w : W)
        → IsReset w
        → length os ≡ 5
        → AllFail os w
        → ((outcome o (performed os w)).0 ≡ some (sentinel err_unavailable))
          × Quiet (performed os w) (outcome o (performed os w)).1
    outcome-shed os o w at five fails =
        let u = performed os w in
        let (same, q) =
          laws.refuses (guarded o) u
            (phase-performed os w 0 (IsReset-phase at) (omega arith) (omega arith) fails) in
        let v = (s.cb (guarded o) u).1 in
        let shape : s.cb (guarded o) u ≡ (err (sentinel err_open_state), v) =
          ap (λ (x : Result Any). (x, v)) same in
        rw (refused o u v shape) (refl, q)
