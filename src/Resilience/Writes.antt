-- ===== src/Resilience/Writes.antt =====
-- What a write through the breaker does: it is refused or carried out, once and without a retry.
use shortn.Prelude.{String, ◌≡◌, refl, ap, ◌∙◌, inl, inr, true, false, Bool-cases}
use shortn.Error.{GoError, sentinel, err_unavailable}
use shortn.Act.{Result, ok, err, Act, pure, ◌>>=◌, Outcome-cases}
use shortn.Shortener.{Link}
use shortn.Resilience.{Any, nil, link, filled, settings, ResilientStore, create, delete}
use shortn.Resilience.Laws.{Phase, BreakerLaws}
use shortn.Resilience.Calls.{
  is_breaker_error, is_masked, typed_call, IsCall, refused, ran, typed_call-IsCall,
}

-- A write through the breaker: refused with nothing done, or carried out once and answered with what
-- it gives; an error of a breaker from below is ErrUnavailable.
pub data IsWrite {W A : Type 0} (Quiet : W → W → Type 0) (write : Act W A) (w : W) (r : Result A)
    (w' : W) : Type 0 where
  shed : r ≡ err (sentinel err_unavailable) → Quiet w w' → IsWrite Quiet write w r w'
  done : r ≡ (write w).0 → is_masked r ≡ false → Quiet (write w).1 w' → IsWrite Quiet write w r w'
  masked :
      (e : GoError)
      → (write w).0 ≡ err e
      → is_breaker_error e ≡ true
      → r ≡ err (sentinel err_unavailable)
      → Quiet (write w).1 w'
      → IsWrite Quiet write w r w'

module _ {W A : Type 0} (Quiet : W → W → Type 0) (write : Act W A) (inject : A → Any)
    (project : Any → Result A) (fits : (a : A) → project (inject a) ≡ ok a) (s : ResilientStore W)
    (phase : W → Phase) (laws : BreakerLaws settings s.cb phase Quiet) where
  abbrev run : Act W Any
  run = write >>= λ a. pure (inject a)

  IsWrite-of_IsCall :
      (w : W) (r : Result A) (v : W)
      → IsCall project s Quiet phase laws run w r v
      → IsWrite Quiet write w r v
  IsWrite-of_IsCall w r v (refused e q) = shed e q
  IsWrite-of_IsCall w r v (ran e q) = elim (Outcome-cases (write w)) [
    | inl (a, p) ↦
        let q' = rw p at q in
        let e' = rw p at e in let k = e' ∙ fits a in done (k ∙ rw p refl) (ap is_masked k) q'
    | inr (x, p) ↦
        let q' = rw p at q in
        let e' = rw p at e in
        elim (Bool-cases (is_breaker_error x)) [
          | inl own ↦ masked x (rw p refl) own (rw own at e') q'
          | inr other ↦ (let k = rw other at e' in done (k ∙ rw p refl) (ap is_masked k ∙ other) q')
        ]
  ]

  typed_write-IsWrite :
      (w : W) → IsWrite Quiet write w (typed_call project s run w).0 (typed_call project s run w).1
  typed_write-IsWrite w =
      IsWrite-of_IsCall w _ _ (typed_call-IsCall project s Quiet phase laws run w)

module _ {W : Type 0} (Quiet : W → W → Type 0) (s : ResilientStore W) (phase : W → Phase)
    (laws : BreakerLaws settings s.cb phase Quiet) where
  -- Create and Delete through the breaker are refused with ErrUnavailable and nothing else done,
  -- or are carried out once, never tried again, and answered with what the store answers; only
  -- an error of a breaker from below, also a wrapped one, is answered as ErrUnavailable.
  pub writes-IsWrite :
      (l : Link) (code : String) (w : W)
      → IsWrite Quiet (s.next.create l) w (create s l w).0 (create s l w).1
        × IsWrite Quiet (s.next.delete code) w (delete s code w).0 (delete s code w).1
  unfolding create delete filled
  writes-IsWrite l code w = (
    typed_write-IsWrite Quiet (s.next.create l) link (λ x. ok (filled l x)) (λ a. refl) s phase laws
        w,
    typed_write-IsWrite Quiet (s.next.delete code) (λ _. nil) (λ _. ok tt) (λ a. refl) s phase laws
        w,
  )
