-- ===== src/Prelude/Text.antt =====
-- Text that Postgres takes: a string without the character 0.
use Prim.Native.Char.{code}
use Prim.Native.String.{String, [], ◌∷◌}
use mathlib.Core.Bool.{Bool, true, false}
use shortn.Prelude.Tests.{◌==◌, if◌then◌else◌}

unfoldable pub is_text : String → Bool
is_text [] = true
is_text (c ∷ s) = let rest = is_text s in if code c == 0 then false else rest
