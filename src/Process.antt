-- ===== src/Process.antt =====
-- How a Go process ends: an error of main is os.Exit(1), which skips what `defer` has registered.
use shortn.Prelude.{ℕ, List, [], ◌∷◌}
use shortn.Act.{Result, ok, err, Act}

-- The process: the world, and the deferred calls, the last one first.
pub record Process (W : Type 0) : Type 0 where
  pub world : W
  pub deferred : List (W → W)

module _ {W : Type 0} where
  abbrev pub run : {A : Type 0} → Act W A → Act (Process W) A
  run m p = let (r, w) = m p.world in (r, record p { world = w })

  abbrev pub defer : (W → W) → Act (Process W) (Unit {0})
  defer f p = (ok tt, record p { deferred = f ∷ p.deferred })

  abbrev pub run_deferred : List (W → W) → W → W
  run_deferred [] w = w
  run_deferred (f ∷ fs) w = run_deferred fs (f w)

  abbrev pub began : W → Process W
  began w = record { world = w; deferred = [] }

  -- The exit code, and the world that the process leaves.
  unfoldable pub finish : Result (Unit {0}) × Process W → ℕ × W
  finish (ok _, p) = (0, run_deferred p.deferred p.world)
  finish (err e, p) = (1, p.world)
