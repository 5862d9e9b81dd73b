-- ===== src/Prelude/Lists.antt =====
-- Lists measured by native numbers, and predicates over lists that compute to tuples.
use Prim.Native.Nat.{ℕ, suc, ◌+◌}
use mathlib.Core.Path.{◌≡◌, sym, subst}
use mathlib.Core.List.{List, [], ◌∷◌, ◌++◌, Mem, not-mem-nil, mem-cons}
use mathlib.Core.HLevel.{⊥_prop}
use mathlib.Core.Logic.Or
use native.Mathlib.Omega.{arith}

module _ {ℓ} {A : Type ℓ} where
  abbrev pub length : List A → ℕ
  length [] = 0
  length (x ∷ xs) = suc (length xs)

  pub length-append : (xs ys : List A) → length (xs ++ ys) ≡ length xs + length ys
  length-append [] ys = omega arith
  length-append (x ∷ xs) ys = omega (arith, length-append xs ys)

module _ {ℓ κ} {A : Type ℓ} where
  abbrev pub All : (A → Type κ) → List A → Type κ
  All P [] = Unit
  All P (x ∷ xs) = P x × All P xs

  pub All-mono : {P Q : A → Type κ} (xs : List A) → ((x : A) → P x → Q x) → All P xs → All Q xs
  All-mono [] f h = tt
  All-mono (x ∷ xs) f h = (f x h.0, All-mono xs f h.1)

  pub not-mem_of_All : (P : A → Type κ) {a : A} (xs : List A) → All P xs → ¬ P a → ¬ Mem a xs
  not-mem_of_All P [] h never m = not-mem-nil m
  not-mem_of_All P (x ∷ xs) h never m =
      Or.elim ⊥_prop (mem-cons.0 m) (λ e. never (subst P (sym e) h.0))
        (not-mem_of_All P xs h.1 never)
