-- ===== src/Act.antt =====
-- Go functions that return a value or an error and act on a world: the store, the cache, the
-- network, the clock. `W` is the world that the dependencies of a component read and change.
use shortn.Prelude.{◌≡◌, refl, ap, ◌⊎◌, inl, inr}
use shortn.Error.{GoError}

pub data Result {ℓ} (A : Type ℓ) : Type ℓ where
  ok : A → Result A
  err : GoError → Result A

abbrev pub Act {ℓ} : Type ℓ → Type ℓ → Type ℓ
Act W A = W → Result A × W

module _ {ℓ} {W A : Type ℓ} where
  abbrev pub pure : A → Act W A
  pure a w = (ok a, w)

  abbrev pub fail : GoError → Act W A
  fail e w = (err e, w)

  abbrev pub lift : Result A → Act W A
  lift r w = (r, w)

  -- `v, err := m()`: the error is a value that the caller inspects.
  abbrev pub attempt : Act W A → Act W (Result A)
  attempt m w = let (r, w') = m w in (ok r, w')

module _ {ℓ} {W A B : Type ℓ} where
  abbrev resume : Result A → (A → Act W B) → Act W B
  resume (ok a) f w = f a w
  resume (err e) f w = (err e, w)

  infixl 5 ◌>>=◌ ◌>>◌
  -- `v, err := m(); if err != nil { return err }`
  abbrev pub ◌>>=◌ : Act W A → (A → Act W B) → Act W B
  ◌>>=◌ m f w = let (r, w') = m w in resume r f w'

  abbrev pub ◌>>◌ : Act W A → Act W B → Act W B
  m >> n = m >>= λ _. n

pub Result-cases {ℓ} :
    {A : Type ℓ} (r : Result A) → ((a : A) × (r ≡ ok a)) ⊎ ((e : GoError) × (r ≡ err e))
Result-cases (ok a) = inl (a, refl)
Result-cases (err e) = inr (e, refl)

-- The outcome of an action at a world: a value or an error, and the world after it.
pub Outcome-cases {ℓ} :
    {W A : Type ℓ} (p : Result A × W)
    → ((a : A) × (p ≡ (ok a, p.1))) ⊎ ((e : GoError) × (p ≡ (err e, p.1)))
Outcome-cases (ok a, w) = inl (a, refl)
Outcome-cases (err e, w) = inr (e, refl)

-- The two parts of an outcome that is known.
module _ {ℓ} {W A : Type ℓ} {p : Result A × W} {r : Result A} {w : W} (e : p ≡ (r, w)) where
  pub outcome_fst : p.0 ≡ r
  outcome_fst = ap (λ (x : Result A × W). x.0) e

  pub outcome_snd : p.1 ≡ w
  outcome_snd = ap (λ (x : Result A × W). x.1) e
