-- ===== src/Resilience/Calls.antt =====
-- A call through the breaker, of whatever the closure does: refused, or run once and answered.
use shortn.Prelude.{ℕ, ◌≡◌, refl, ap, inl, inr, Bool, true, false, ◌||◌, Bool-cases, if◌then◌else◌}
use shortn.Error.{
  GoError, sentinel, err_unavailable, err_open_state, err_too_many_requests, errors_is,
}
use shortn.Act.{outcome_fst, Result, ok, err, Act, lift, ◌>>=◌}
use shortn.Resilience.{Any, settings, ResilientStore, answered, execute}
use shortn.Resilience.Laws.{Phase, closed, open_until, half_open, BreakerLaws}

abbrev pub is_breaker_error : GoError → Bool
is_breaker_error e = errors_is e err_open_state || errors_is e err_too_many_requests

-- An answer that `execute` replaces by ErrUnavailable.
abbrev pub is_masked : {A : Type 0} → Result A → Bool
is_masked (ok a) = false
is_masked (err e) = is_breaker_error e

-- `project` is the type assertion.
module _ {W A : Type 0} (project : Any → Result A) (s : ResilientStore W) where
  -- What becomes of the breaker's reply.
  abbrev pub settled : Result Any → Result A
  settled (ok x) = project x
  settled (err e) = if is_breaker_error e then err (sentinel err_unavailable) else err e

  abbrev pub typed_call : Act W Any → Act W A
  typed_call run = execute s run >>= λ res. lift (project res)

  typed_call-eq :
      (run : Act W Any) (w v : W) (r : Result Any)
      → s.cb run w ≡ (r, v)
      → typed_call run w ≡ (settled r, v)
  unfolding execute answered
  typed_call-eq run w v (ok x) p = rw p
  typed_call-eq run w v (err e) p = elim (Bool-cases (is_breaker_error e)) [
    | inl own ↦ rw (p, own)
    | inr other ↦ rw (p, other)
  ]

  module _ (Quiet : W → W → Type 0) (phase : W → Phase)
      (laws : BreakerLaws settings s.cb phase Quiet) where
    -- Refused with nothing else done, or run, and then answered with what the run gives.
    pub data IsCall (run : Act W Any) (w : W) (r : Result A) (v : W) : Type 0 where
      refused : r ≡ err (sentinel err_unavailable) → Quiet w v → IsCall run w r v
      ran : r ≡ settled (run w).0 → Quiet (run w).1 v → IsCall run w r v

    IsCall-ran :
        (run : Act W Any) (w : W)
        → (s.cb run w).0 ≡ (run w).0
        → Quiet (run w).1 (s.cb run w).1
        → IsCall run w (typed_call run w).0 (typed_call run w).1
    IsCall-ran run w same q =
        let v = (s.cb run w).1 in
        let shape : s.cb run w ≡ ((run w).0, v) = ap (λ (x : Result Any). (x, v)) same in
        rw (typed_call-eq run w v (run w).0 shape) (ran refl q)

    IsCall-refused :
        (run : Act W Any) (w : W) (e : GoError)
        → (s.cb run w).0 ≡ err e
        → is_breaker_error e ≡ true
        → Quiet w (s.cb run w).1
        → IsCall run w (typed_call run w).0 (typed_call run w).1
    IsCall-refused run w e same own q =
        let v = (s.cb run w).1 in
        let shape : s.cb run w ≡ (err e, v) = ap (λ (x : Result Any). (x, v)) same in
        rw (typed_call-eq run w v (err e) shape, own) (refused refl q)

    IsCall-at :
        (run : Act W Any) (w : W) (p : Phase)
        → phase w ≡ p
        → IsCall run w (typed_call run w).0 (typed_call run w).1
    IsCall-at run w (closed n) e = let (same, q) = laws.passes run w n e in IsCall-ran run w same q
    IsCall-at run w open_until e =
        let (same, q) = laws.refuses run w e in IsCall-refused run w _ same refl q
    IsCall-at run w half_open e = elim (laws.probes run w e) [
      | inl (same, q) ↦ IsCall-ran run w same q
      | inr (same, q) ↦ IsCall-refused run w _ same refl q
    ]

    pub typed_call-IsCall :
        (run : Act W Any) (w : W) → IsCall run w (typed_call run w).0 (typed_call run w).1
    typed_call-IsCall run w = IsCall-at run w (phase w) refl

    -- With the breaker closed the call is run.
    pub typed_call_closed :
        (run : Act W Any) (w : W) (n : ℕ)
        → phase w ≡ closed n
        → (typed_call run w).0 ≡ settled (run w).0
    typed_call_closed run w n at =
        let (same, q) = laws.passes run w n at in
        let v = (s.cb run w).1 in
        let shape : s.cb run w ≡ ((run w).0, v) = ap (λ (x : Result Any). (x, v)) same in
        outcome_fst (typed_call-eq run w v (run w).0 shape)
