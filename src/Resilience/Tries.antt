-- ===== src/Resilience/Tries.antt =====
-- The tries of a read that is retried.
use shortn.Prelude.{◌≡◌, refl, ap, inl, inr, false, arith, Bool-cases}
use shortn.Error.{GoError}
use shortn.Act.{Result, ok, err, Act}
use shortn.Resilience.{
  Any, Verdict, done, permanent, transient, is_expected, judged, try_once, with_result,
}
use shortn.Resilience.Laws.{IsContextError, Retried, succeeds, fails, gives_up, interrupted, waits}

-- A read answers `r` from the world `w` on: the last try gives the answer, or the context ends
-- behind it; all tries before fail with an error that is not expected.
pub data Attempts {W A : Type 0} (Quiet : W → W → Type 0) (read : Act W A) (r : Result A) (w' : W)
    : W → Type 0 where
  last : {w : W} → read w ≡ (r, w') → Attempts Quiet read r w' w
  cut :
      {w : W} (e x : GoError) (u : W)
      → read w ≡ (err e, u)
      → is_expected e ≡ false
      → Quiet u w'
      → IsContextError x
      → r ≡ err x
      → Attempts Quiet read r w' w
  again :
      {w : W} (e : GoError) (u v : W)
      → read w ≡ (err e, u)
      → is_expected e ≡ false
      → Quiet u v
      → Attempts Quiet read r w' v
      → Attempts Quiet read r w' w

module _ {W : Type 0} where
  -- The outcome of a try, read back from the verdict.
  done_of_ok :
      (result : Any) (out : Result Any × W) (t : Any × W)
      → judged result out ≡ (done, t)
      → out ≡ (ok t.0, t.1)
  unfolding judged
  done_of_ok result (ok r, w) t p = ap (λ (x : Verdict × (Any × W)). (ok x.1.0, x.1.1)) p
  done_of_ok result (err e, w) t p = elim (Bool-cases (is_expected e)) [
    | inl final ↦ absurd (let q = rw final at p in cc)
    | inr more ↦ absurd (let q = rw more at p in cc)
  ]

  permanent_of_err :
      (result : Any) (out : Result Any × W) (e : GoError) (t : Any × W)
      → judged result out ≡ (permanent e, t)
      → out ≡ (err e, t.1)
  unfolding judged
  permanent_of_err result (ok r, w) e t p = cc
  permanent_of_err result (err x, w) e t p = elim (Bool-cases (is_expected x)) [
    | inl final ↦ (let q = rw final at p in ground (arith, q))
    | inr more ↦ absurd (let q = rw more at p in cc)
  ]

  transient_of_err :
      (result : Any) (out : Result Any × W) (e : GoError) (t : Any × W)
      → judged result out ≡ (transient e, t)
      → (out ≡ (err e, t.1)) × (is_expected e ≡ false)
  unfolding judged
  transient_of_err result (ok r, w) e t p = cc
  transient_of_err result (err x, w) e t p = elim (Bool-cases (is_expected x)) [
    | inl final ↦ absurd (let q = rw final at p in cc)
    | inr more ↦ (let q = rw more at p in ground (arith, q, more))
  ]

module _ {W : Type 0} (Quiet : W → W → Type 0) (op : Act W Any) where
  pub Attempts-of_Retried :
      (r : Result (Unit {0})) (t : Any × W) {s : Any × W}
      → Retried Quiet (try_once op) r t s
      → Attempts Quiet op (with_result (r, t)).0 (with_result (r, t)).1 s.1
  unfolding with_result
  Attempts-of_Retried r t {s} (succeeds p q) = rw q (last (done_of_ok s.0 (op s.1) t p))
  Attempts-of_Retried r t {s} (fails e p q) = rw q (last (permanent_of_err s.0 (op s.1) e t p))
  Attempts-of_Retried r t {s} (gives_up e p q) = rw q (last (transient_of_err s.0 (op s.1) e t p).0)
  Attempts-of_Retried r t {s} (interrupted e x u p same quiet ended q) =
      let (a, b) = transient_of_err s.0 (op s.1) e u p in rw q (cut e x u.1 a b quiet ended refl)
  Attempts-of_Retried r t {s} (waits e u v p same quiet rest) =
      let (a, b) = transient_of_err s.0 (op s.1) e u p in
      again e u.1 v.1 a b quiet (Attempts-of_Retried r t rest)
