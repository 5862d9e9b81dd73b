-- ===== src/Idgen/Random.antt =====
-- internal/idgen/idgen.go: random base62 codes. `rand_int` is rand.Int of crypto/rand under a limit.
pub mod Digits
mod Tests
use Prim.Native.Char.{Char}
use Prim.Native.String.{[], ◌∷◌}
use shortn.Prelude.{ℕ, zero, suc, String, Option, none, some}
use shortn.Error.{message}
use shortn.Act.{Result, ok, err, Act, pure, lift, ◌>>=◌}

abbrev pub alphabet : String
alphabet = "0123456789abcdefghijklmnopqrstuvwxyzABCDEFGHIJKLMNOPQRSTUVWXYZ"

pub record RandomBase62 : Type 0 where
  pub length : ℕ

abbrev pub new_random_base62 : ℕ → RandomBase62
new_random_base62 length = record { length = length }

abbrev pub size : String → ℕ
size [] = 0
size (c ∷ s) = suc (size s)

-- s[n] of a string of ASCII characters
abbrev pub at : String → ℕ → Option Char
at [] n = none
at (c ∷ s) zero = some c
at (c ∷ s) (suc n) = at s n

-- An index out of range is a panic.
unfoldable pub indexed : Option Char → Result Char
indexed none = err (message "panic: index out of range")
indexed (some c) = ok c

module _ {W : Type 0} (rand_int : ℕ → Act W ℕ) where
  -- The loop over the places that are left.
  unfoldable pub fill : ℕ → Act W String
  unfolding indexed
  fill zero = pure ""
  fill (suc left) = do
    n ← rand_int (size alphabet)
    c ← lift (indexed (at alphabet n))
    rest ← fill left
    pure (c ∷ rest)

  unfoldable pub generate : RandomBase62 → Act W String
  generate r = fill r.length
