-- ===== src/Resilience/Example.antt =====
-- A breaker and a retry for tests, in any world that has a place for the breaker's phase: the retry
-- tries at most twice, and the probe of a half-open breaker closes it.
use shortn.Prelude.{ℕ, ◌≡◌, refl, inl}
use shortn.Error.{sentinel, err_open_state}
use shortn.Act.{Result, ok, err, Act}
use shortn.Resilience.{Any, Verdict, done, permanent, transient, Settings}
use shortn.Resilience.Laws.{
  Phase, closed, open_until, half_open, error_of, after_closed, BreakerLaws, Retried, succeeds,
  fails, gives_up, waits, RetryLaws,
}

module _ {W : Type 0} where
  abbrev last_try : Verdict × (Any × W) → Result (Unit {0}) × (Any × W)
  last_try (done, t) = (ok tt, t)
  last_try (permanent e, t) = (err e, t)
  last_try (transient e, t) = (err e, t)

  abbrev first_try :
      (Any × W → Verdict × (Any × W)) → Verdict × (Any × W) → Result (Unit {0}) × (Any × W)
  first_try op (done, t) = (ok tt, t)
  first_try op (permanent e, t) = (err e, t)
  first_try op (transient e, t) = last_try (op t)

  abbrev pub retry : (Any × W → Verdict × (Any × W)) → Act (Any × W) (Unit {0})
  retry op s = first_try op (op s)

  module _ (Quiet : W → W → Type 0) (self : (w : W) → Quiet w w) where
    last_try-Retried :
        (op : Any × W → Verdict × (Any × W)) (s : Any × W) (o : Verdict × (Any × W))
        → op s ≡ o
        → Retried Quiet op (last_try o).0 (last_try o).1 s
    last_try-Retried op s (done, t) e = succeeds e refl
    last_try-Retried op s (permanent x, t) e = fails x e refl
    last_try-Retried op s (transient x, t) e = gives_up x e refl

    first_try-Retried :
        (op : Any × W → Verdict × (Any × W)) (s : Any × W) (o : Verdict × (Any × W))
        → op s ≡ o
        → Retried Quiet op (first_try op o).0 (first_try op o).1 s
    first_try-Retried op s (done, t) e = succeeds e refl
    first_try-Retried op s (permanent x, t) e = fails x e refl
    first_try-Retried op s (transient x, t) e =
        waits x t t e refl (self t.1) (last_try-Retried op t (op t) refl)

    pub retry_laws : RetryLaws retry Quiet
    retry_laws op s = first_try-Retried op s (op s) refl

module _ {W : Type 0} (phase : W → Phase) (set_phase : Phase → W → W) (st : Settings) where
  abbrev cb_at : Phase → Act W Any → Act W Any
  cb_at (closed n) op w = let (r, v) = op w in (r, set_phase (after_closed st n (error_of r)) v)
  cb_at open_until op w = (err (sentinel err_open_state), w)
  cb_at half_open op w = let (r, v) = op w in (r, set_phase (closed 0) v)

  abbrev pub cb : Act W Any → Act W Any
  cb op w = cb_at (phase w) op w

  module _ (Quiet : W → W → Type 0) (self : (w : W) → Quiet w w)
      (set_quiet : (p : Phase) (w : W) → Quiet w (set_phase p w))
      (phase_set : (p : Phase) (w : W) → phase (set_phase p w) ≡ p) where
    passes_at :
        (op : Act W Any) (w : W) (p : Phase) (n : ℕ)
        → p ≡ closed n
        → ((cb_at p op w).0 ≡ (op w).0) × Quiet (op w).1 (cb_at p op w).1
    passes_at op w p n e = rw e (refl, set_quiet _ (op w).1)

    counts_at :
        (op : Act W Any) (w : W) (p : Phase) (n : ℕ)
        → p ≡ closed n
        → phase (cb_at p op w).1 ≡ after_closed st n (error_of (op w).0)
    counts_at op w p n e = rw e (phase_set _ (op w).1)

    refuses_at :
        (op : Act W Any) (w : W) (p : Phase)
        → p ≡ open_until
        → ((cb_at p op w).0 ≡ err (sentinel err_open_state)) × Quiet w (cb_at p op w).1
    refuses_at op w p e = rw e (refl, self w)

    probes_at :
        (op : Act W Any) (w : W) (p : Phase)
        → p ≡ half_open
        → ((cb_at p op w).0 ≡ (op w).0) × Quiet (op w).1 (cb_at p op w).1
    probes_at op w p e = rw e (refl, set_quiet (closed 0) (op w).1)

    pub breaker_laws : BreakerLaws st cb phase Quiet
    breaker_laws = record {
      passes = λ op w n e. passes_at op w (phase w) n e;
      counts = λ op w n e same. counts_at op w (phase w) n e;
      refuses = λ op w e. refuses_at op w (phase w) e;
      probes = λ op w e. inl (probes_at op w (phase w) e);
    }
