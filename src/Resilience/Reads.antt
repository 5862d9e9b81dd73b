-- ===== src/Resilience/Reads.antt =====
-- What a read through the breaker and the retries answers, in terms of the single reads.
use shortn.Prelude.{
  ℕ, String, ◌≡◌, refl, sym, ap, ◌∙◌, ◌⊎◌, inl, inr, true, false, ◌||◌, arith, Bool-cases,
}
use shortn.Prelude.Int.{ℤ}
use shortn.Error.{
  GoError, sentinel, err_unavailable, err_open_state, err_too_many_requests, err_not_found,
  errors_is,
}
use shortn.Act.{outcome_fst, Result, ok, err, Act, pure, ◌>>=◌, Outcome-cases}
use shortn.Shortener.{Link}
use shortn.Resilience.{
  Any, nil, link, stats, links, as_link, as_stats, as_links, get_by_code, get_stats, list,
  is_expected, try_once, settings, ResilientStore, retry_read,
}
use shortn.Resilience.Laws.{Phase, closed, BreakerLaws, RetryLaws}
use shortn.Resilience.Calls.{
  is_breaker_error, is_masked, settled, typed_call, IsCall, refused, ran, typed_call-IsCall,
  typed_call_closed,
}
use shortn.Resilience.Tries.{Attempts, last, cut, again, Attempts-of_Retried}

-- A read through the breaker: refused with nothing else done, or carried out, and then answered with
-- what its tries give; an error of the breaker itself, also from below, is ErrUnavailable.
pub data IsRead {W A : Type 0} (Quiet : W → W → Type 0) (read : Act W A) (w : W) (r : Result A)
    (w' : W) : Type 0 where
  shed : r ≡ err (sentinel err_unavailable) → Quiet w w' → IsRead Quiet read w r w'
  tried :
      (u : W)
      → Attempts Quiet read r u w
      → is_masked r ≡ false
      → Quiet u w'
      → IsRead Quiet read w r w'
  masked :
      (e : GoError) (u : W)
      → Attempts Quiet read (err e) u w
      → (errors_is e err_open_state || errors_is e err_too_many_requests) ≡ true
      → r ≡ err (sentinel err_unavailable)
      → Quiet u w'
      → IsRead Quiet read w r w'

-- One of the reads, as the closure hands it on: `inject` makes an `any` of its value, `project` is the
-- type assertion.
module _ {W A : Type 0} (Quiet : W → W → Type 0) (read : Act W A) (inject : A → Any)
    (project : Any → Result A) (fits : (a : A) → project (inject a) ≡ ok a) where
  abbrev op : Act W Any
  op = read >>= λ a. pure (inject a)

  -- What the type assertion makes of an answer.
  abbrev asserted : Result Any → Result A
  asserted (ok x) = project x
  asserted (err e) = err e

  abbrev injected : Result A → Result Any
  injected (ok a) = ok (inject a)
  injected (err e) = err e

  read_of_op : (w u : W) (r : Result Any) → op w ≡ (r, u) → read w ≡ (asserted r, u)
  read_of_op w u r p = elim (Outcome-cases (read w)) [
    | inl (a, q) ↦
        (let k = rw q at p in
          q
          ∙ sym (ap (λ (x : Result A). (x, (read w).1)) (fits a))
          ∙ ap (λ (x : Result Any × W). (asserted x.0, x.1)) k)
    | inr (e, q) ↦ (let k = rw q at p in q ∙ ap (λ (x : Result Any × W). (asserted x.0, x.1)) k)
  ]

  op_ok : (w u : W) (x : Any) → op w ≡ (ok x, u) → (a : A) × (x ≡ inject a)
  op_ok w u x p = elim (Outcome-cases (read w)) [
    | inl (a, q) ↦ (let k = rw q at p in (a, cc))
    | inr (e, q) ↦ absurd (let k = rw q at p in cc)
  ]

  -- A value that the tries give is the value of a read, so the type assertion holds of it.
  Attempts-ok :
      (r : Result Any) (x : Any) (u : W) {w : W}
      → r ≡ ok x
      → Attempts Quiet op r u w
      → (a : A) × (x ≡ inject a)
  Attempts-ok r x u {w} f (last p) = op_ok w u x (p ∙ ap (λ (t : Result Any). (t, u)) f)
  Attempts-ok r x u f (cut e y v p odd quiet ended g) = absurd (let k = sym f ∙ g in cc)
  Attempts-ok r x u f (again e y z p odd quiet rest) = Attempts-ok r x u f rest

  ok-unmasked :
      (x : Any) (u : W) {w : W} → Attempts Quiet op (ok x) u w → is_masked (project x) ≡ false
  ok-unmasked x u t =
      let (a, e) = Attempts-ok (ok x) x u refl t in
      ap (λ (y : Any). is_masked (project y)) e ∙ ap is_masked (fits a)

  Attempts-asserted :
      (r : Result Any) (u : W) {w : W}
      → Attempts Quiet op r u w
      → Attempts Quiet read (asserted r) u w
  Attempts-asserted r u {w} (last p) = last (read_of_op w u r p)
  Attempts-asserted r u {w} (cut e x v p odd quiet ended q) =
      cut e x v (read_of_op w v (err e) p) odd quiet ended (ap asserted q)
  Attempts-asserted r u {w} (again e v v' p odd quiet rest) =
      again e v v' (read_of_op w v (err e) p) odd quiet (Attempts-asserted r u rest)

  module _ (s : ResilientStore W) (phase : W → Phase) (laws : BreakerLaws settings s.cb phase Quiet)
      (tries : RetryLaws s.retry Quiet) where
    abbrev typed_read : Act W A
    typed_read = typed_call project s (retry_read s op)

    settled-IsRead :
        (r : Result Any) (w u v : W)
        → Attempts Quiet op r u w
        → Quiet u v
        → IsRead Quiet read w (settled project s r) v
    settled-IsRead (ok x) w u v a q = tried u (Attempts-asserted (ok x) u a) (ok-unmasked x u a) q
    settled-IsRead (err e) w u v a q = elim (Bool-cases (is_breaker_error e)) [
      | inl own ↦ rw own (masked e u (Attempts-asserted (err e) u a) own refl q)
      | inr other ↦ rw other (tried u (Attempts-asserted (err e) u a) other q)
    ]

    Attempts-retry_read : (w : W) → Attempts Quiet op (retry_read s op w).0 (retry_read s op w).1 w
    unfolding retry_read
    Attempts-retry_read w = Attempts-of_Retried Quiet op _ _ (tries (try_once op) (nil, w))

    -- The first try that is final is the only one.
    Attempts-final :
        (r : Result Any) (u : W) {w : W} (t : Result Any) (v : W)
        → op w ≡ (t, v)
        → ((x : Any) × (t ≡ ok x)) ⊎ (t ≡ err (sentinel err_not_found))
        → Attempts Quiet op r u w
        → r ≡ t
    unfolding is_expected
    Attempts-final r u t v p final (last q) = outcome_fst (sym q ∙ p)
    Attempts-final r u t v p (inl (x, final)) (cut e y z q odd quiet ended f) =
        absurd (let k = sym q ∙ p ∙ ap (λ (a : Result Any). (a, v)) final in cc)
    Attempts-final r u t v p (inr final) (cut e y z q odd quiet ended f) =
        absurd (let k = sym q ∙ p ∙ ap (λ (a : Result Any). (a, v)) final in ground (arith, k, odd))
    Attempts-final r u t v p (inl (x, final)) (again e y z q odd quiet rest) =
        absurd (let k = sym q ∙ p ∙ ap (λ (a : Result Any). (a, v)) final in cc)
    Attempts-final r u t v p (inr final) (again e y z q odd quiet rest) =
        absurd (let k = sym q ∙ p ∙ ap (λ (a : Result Any). (a, v)) final in ground (arith, k, odd))

    injected-final :
        (r : Result A)
        → ((a : A) × (r ≡ ok a)) ⊎ (r ≡ err (sentinel err_not_found))
        → ((x : Any) × (injected r ≡ ok x)) ⊎ (injected r ≡ err (sentinel err_not_found))
    injected-final r (inl (a, e)) = inl (inject a, rw e refl)
    injected-final r (inr e) = inr (rw e refl)

    settled-injected :
        (r : Result A)
        → ((a : A) × (r ≡ ok a)) ⊎ (r ≡ err (sentinel err_not_found))
        → settled project s (injected r) ≡ r
    settled-injected r (inl (a, e)) = rw e (fits a)
    settled-injected r (inr e) = rw e refl

    op_of_read : (w u : W) (r : Result A) → read w ≡ (r, u) → op w ≡ (injected r, u)
    op_of_read w u (ok a) p = rw p
    op_of_read w u (err e) p = rw p

    pub typed_read_closed :
        (w : W) (n : ℕ)
        → phase w ≡ closed n
        → (r : Result A) (u : W) → read w ≡ (r, u)
        → ((a : A) × (r ≡ ok a)) ⊎ (r ≡ err (sentinel err_not_found))
        → (typed_read w).0 ≡ r
    typed_read_closed w n at r u p final =
        let only =
          Attempts-final (retry_read s op w).0 (retry_read s op w).1 (injected r) u
            (op_of_read w u r p) (injected-final r final) (Attempts-retry_read w) in
        typed_call_closed project s Quiet phase laws (retry_read s op) w n at
        ∙ ap (settled project s) only
        ∙ settled-injected r final

    IsRead-of_IsCall :
        (w : W) (r : Result A) (v : W)
        → IsCall project s Quiet phase laws (retry_read s op) w r v
        → IsRead Quiet read w r v
    IsRead-of_IsCall w r v (refused e q) = shed e q
    IsRead-of_IsCall w r v (ran e q) =
        rw e
          (settled-IsRead (retry_read s op w).0 w (retry_read s op w).1 v (Attempts-retry_read w) q)

    pub typed_read-IsRead : (w : W) → IsRead Quiet read w (typed_read w).0 (typed_read w).1
    typed_read-IsRead w =
        IsRead-of_IsCall w _ _ (typed_call-IsCall project s Quiet phase laws (retry_read s op) w)

module _ {W : Type 0} (Quiet : W → W → Type 0) (s : ResilientStore W) (phase : W → Phase)
    (laws : BreakerLaws settings s.cb phase Quiet) (tries : RetryLaws s.retry Quiet) where
  -- Each read through the breaker is refused with ErrUnavailable and nothing else done, or is
  -- tried: all tries but the last fail with an error that is not expected, and the last gives
  -- the answer, or the context ends; an error of a breaker from below, also a wrapped one, is
  -- answered as ErrUnavailable, and every other answer of the tries is handed on as it is.
  pub reads-IsRead :
      (code : String) (limit offset : ℤ) (w : W)
      → IsRead Quiet (s.next.get_by_code code) w (get_by_code s code w).0 (get_by_code s code w).1
        × IsRead Quiet (s.next.get_stats code) w (get_stats s code w).0 (get_stats s code w).1
        × IsRead Quiet
            (s.next.list limit offset)
            w
            (list s limit offset w).0
            (list s limit offset w).1
  unfolding get_by_code get_stats list as_link as_stats as_links
  reads-IsRead code limit offset w = (
    typed_read-IsRead Quiet (s.next.get_by_code code) link as_link (λ a. refl) s phase laws tries w,
    typed_read-IsRead Quiet (s.next.get_stats code) stats as_stats (λ a. refl) s phase laws tries w,
    typed_read-IsRead Quiet (s.next.list limit offset) links as_links (λ a. refl) s phase laws tries
        w,
  )

  -- With the breaker closed, a read whose first try succeeds, or finds no such link, answers just that.
  pub get_by_code_closed :
      (code : String) (r : Result Link) (w u : W) (n : ℕ)
      → phase w ≡ closed n
      → s.next.get_by_code code w ≡ (r, u)
      → ((l : Link) × (r ≡ ok l)) ⊎ (r ≡ err (sentinel err_not_found))
      → (get_by_code s code w).0 ≡ r
  unfolding get_by_code as_link
  get_by_code_closed code r w u n at p final =
      typed_read_closed Quiet (s.next.get_by_code code) link as_link (λ a. refl) s phase laws tries
        w n at r u p final
