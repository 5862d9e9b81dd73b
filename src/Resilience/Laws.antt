-- ===== src/Resilience/Laws.antt =====
-- What the two libraries are documented to do.
use shortn.Prelude.{ℕ, ◌+◌, ◌≡◌, ◌⊎◌, Option, none, some, if◌then◌else◌}
use shortn.Error.{
  GoError, sentinel, message, err_open_state, err_too_many_requests, err_deadline_exceeded,
}
use shortn.Act.{Result, ok, err, Act}
use shortn.Resilience.{Any, Verdict, done, permanent, transient, Settings}

-- What gobreaker knows of a circuit breaker when a call comes: closed after so many failures in a
-- row, open, or half open.
pub data Phase : Type 0 where
  closed : ℕ → Phase
  open_until : Phase
  half_open : Phase

abbrev pub error_of : {A : Type 0} → Result A → Option GoError
error_of (ok a) = none
error_of (err e) = some e

-- The phase after a request that was let through in the closed phase.
abbrev pub after_closed : Settings → ℕ → Option GoError → Phase
after_closed st n e =
    if st.is_successful e
    then closed 0
    else if st.ready_to_trip (n + 1)
    then open_until
    else closed (n + 1)

-- Execute under the settings, of an operation that does not call the breaker. From the world that
-- the operation leaves to that which Execute leaves, only what `Quiet` allows may change: the
-- breaker's own memory, and what time brings.
pub record BreakerLaws {W : Type 0} (st : Settings) (cb : Act W Any → Act W Any) (phase : W → Phase)
    (Quiet : W → W → Type 0) : Type 0 where
  pub passes :
      (op : Act W Any) (w : W) (n : ℕ)
      → phase w ≡ closed n
      → ((cb op w).0 ≡ (op w).0) × Quiet (op w).1 (cb op w).1
  pub counts :
      (op : Act W Any) (w : W) (n : ℕ)
      → phase w ≡ closed n
      → phase (op w).1 ≡ phase w
      → phase (cb op w).1 ≡ after_closed st n (error_of (op w).0)
  pub refuses :
      (op : Act W Any) (w : W)
      → phase w ≡ open_until
      → ((cb op w).0 ≡ err (sentinel err_open_state)) × Quiet w (cb op w).1
  -- In the half-open phase a request is let through or is one too many.
  pub probes :
      (op : Act W Any) (w : W)
      → phase w ≡ half_open
      → (((cb op w).0 ≡ (op w).0) × Quiet (op w).1 (cb op w).1)
        ⊎ (((cb op w).0 ≡ err (sentinel err_too_many_requests)) × Quiet w (cb op w).1)

-- A context that ends gives its error.
pub data IsContextError (e : GoError) : Type 0 where
  expired : e ≡ sentinel err_deadline_exceeded → IsContextError e
  cancelled : e ≡ message "context canceled" → IsContextError e

-- The runs of backoff.Retry: the operation is tried until it succeeds, fails for good, the time is
-- up, or the context ends; between two tries time passes, and the variable `result` stays.
pub data Retried {W : Type 0} (Quiet : W → W → Type 0) (op : Any × W → Verdict × (Any × W))
    (r : Result (Unit {0})) (t : Any × W) : Any × W → Type 0 where
  succeeds : {s : Any × W} → op s ≡ (done, t) → r ≡ ok tt → Retried Quiet op r t s
  fails : {s : Any × W} (e : GoError) → op s ≡ (permanent e, t) → r ≡ err e → Retried Quiet op r t s
  gives_up :
      {s : Any × W} (e : GoError) → op s ≡ (transient e, t) → r ≡ err e → Retried Quiet op r t s
  interrupted :
      {s : Any × W} (e x : GoError) (u : Any × W)
      → op s ≡ (transient e, u)
      → t.0 ≡ u.0
      → Quiet u.1 t.1
      → IsContextError x
      → r ≡ err x
      → Retried Quiet op r t s
  waits :
      {s : Any × W} (e : GoError) (u v : Any × W)
      → op s ≡ (transient e, u)
      → v.0 ≡ u.0
      → Quiet u.1 v.1
      → Retried Quiet op r t v
      → Retried Quiet op r t s

abbrev pub RetryLaws :
    {W : Type 0}
    → ((Any × W → Verdict × (Any × W)) → Act (Any × W) (Unit {0}))
    → (W → W → Type 0)
    → Type 0
RetryLaws {W} retry Quiet =
    (op : Any × W → Verdict × (Any × W)) (s : Any × W)
    → Retried Quiet op (retry op s).0 (retry op s).1 s
