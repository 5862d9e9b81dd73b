-- ===== src/Idgen/Random/Digits.antt =====
-- A random code is read back as the numbers that were drawn.
use Prim.Native.Char.{Char, code}
use Prim.Native.String.{[] as empty, ◌∷◌ as ◌∷s◌}
use shortn.Prelude.{
  ℕ, zero, suc, ◌<◌, ◌≡◌, refl, ap, ◌∙◌, inl, inr, String, Bool, true, false, ◌&&◌, not, ◌==◌, some,
  List, [], ◌∷◌, length, arith, if◌then◌else◌,
}
use shortn.Error.{GoError}
use shortn.Act.{Result, ok, err, Act, pure, ◌>>=◌, Outcome-cases}
use shortn.Idgen.Random.{alphabet, new_random_base62, size, at, fill, generate}

-- The place of a character in a text.
pub position : Char → String → ℕ
position c empty = 0
position c (d ∷s s) = if code c == code d then 0 else suc (position c s)

-- The digits of a code.
pub digits : String → List ℕ
digits empty = []
digits (c ∷s s) = position c alphabet ∷ digits s

is_fresh : Char → String → Bool
is_fresh c empty = true
is_fresh c (d ∷s s) = not (code d == code c) && is_fresh c s

all_distinct : String → Bool
all_distinct empty = true
all_distinct (c ∷s s) = is_fresh c s && all_distinct s

fresh-at :
    (c d : Char) (s : String) (n : ℕ)
    → is_fresh c s ≡ true
    → at s n ≡ some d
    → (code d == code c) ≡ false
unfolding is_fresh
fresh-at c d empty n f e = cc
fresh-at c d (x ∷s s) zero f e = ground arith
fresh-at c d (x ∷s s) (suc n) f e = fresh-at c d s n (ground arith) e

position-at :
    (s : String) (n : ℕ) (c : Char) → all_distinct s ≡ true → at s n ≡ some c → position c s ≡ n
unfolding all_distinct position
position-at empty n c f e = cc
position-at (d ∷s s) zero c f e = ground arith
position-at (d ∷s s) (suc n) c f e =
    let other = fresh-at d c s n (ground arith) e in
    let same = position-at s n c (ground arith) e in ground arith

at-lt : (s : String) (n : ℕ) → n < size s → (c : Char) × (at s n ≡ some c)
at-lt empty n less = absurd (omega (arith, less))
at-lt (c ∷s s) zero less = (c, refl)
at-lt (c ∷s s) (suc n) less = at-lt s n (omega (arith, less))

alphabet-distinct : all_distinct alphabet ≡ true
unfolding all_distinct is_fresh
alphabet-distinct = refl

module _ {W : Type 0} (rand_int : ℕ → Act W ℕ) where
  -- So many numbers below 62, drawn in order.
  pub draws : ℕ → Act W (List ℕ)
  draws zero = pure []
  draws (suc left) = do n ← rand_int 62; rest ← draws left; pure (n ∷ rest)

  -- The numbers are drawn, and the code has them for its digits; or a draw fails.
  pub data IsDrawn (left : ℕ) (w : W) (out : Result String × W) : Type 0 where
    drawn :
        (ns : List ℕ) (code : String) (u : W)
        → draws left w ≡ (ok ns, u)
        → out ≡ (ok code, u)
        → digits code ≡ ns
        → size code ≡ left
        → IsDrawn left w out
    failed :
        (e : GoError) (u : W) → draws left w ≡ (err e, u) → out ≡ (err e, u) → IsDrawn left w out

  IsDrawn-next :
      (left n : ℕ) (c : Char) (w u : W) {out : Result String × W}
      → rand_int 62 w ≡ (ok n, u)
      → at alphabet n ≡ some c
      → fill rand_int left u ≡ out
      → IsDrawn left u out
      → IsDrawn (suc left) w (fill rand_int (suc left) w)
  unfolding fill draws digits
  IsDrawn-next left n c w u p q r (drawn ns code v a b d s) =
      drawn (n ∷ ns) (c ∷s code) v (rw (p, a) refl) (rw (p, q, r, b) refl)
        (ap (λ (k : ℕ). k ∷ digits code) (position-at alphabet n c alphabet-distinct q)
          ∙ ap (λ (ks : List ℕ). n ∷ ks) d)
        (omega (arith, s))
  IsDrawn-next left n c w u p q r (failed e v a b) =
      failed e v (rw (p, a) refl) (rw (p, q, r, b) refl)

  module _ (bounded : (limit n : ℕ) (w u : W) → rand_int limit w ≡ (ok n, u) → n < limit) where
    fill-IsDrawn : (left : ℕ) (w : W) → IsDrawn left w (fill rand_int left w)
    unfolding fill draws digits
    fill-IsDrawn zero w = drawn [] "" w refl refl refl refl
    fill-IsDrawn (suc left) w = elim (Outcome-cases (rand_int 62 w)) [
      | inl (n, p) ↦
          let u = (rand_int 62 w).1 in
          let (c, q) = at-lt alphabet n (bounded 62 n w u p) in
          IsDrawn-next left n c w u p q refl (fill-IsDrawn left u)
      | inr (e, p) ↦ failed e (rand_int 62 w).1 (rw p refl) (rw p refl)
    ]

    -- For any length, Generate draws that many numbers below 62 and gives a code of that length
    -- from whose characters the same numbers are read back in order, or fails as the first draw
    -- that fails.
    pub generate-IsDrawn :
        (length : ℕ) (w : W) → IsDrawn length w (generate rand_int (new_random_base62 length) w)
    unfolding generate
    generate-IsDrawn length w = fill-IsDrawn length w
