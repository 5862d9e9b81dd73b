-- ===== src/Resilience/Tests.antt =====
-- A breaker and a retry that try at most twice, over a store that is down for some reads.
use shortn.Prelude.{ℕ, zero, suc, ◌≡◌, refl, some, List, [], ◌∷◌, String}
use shortn.Prelude.Int.{pos}
use shortn.Error.{sentinel, message, err_unavailable}
use shortn.Act.{ok, err, Act}
use shortn.Shortener.{draft, LinkStore}
use shortn.Resilience.{
  settings, is_expected, is_successful, ResilientStore, retry_read, create, delete, get_by_code,
  get_stats, list,
}
use shortn.Resilience.Laws.{Phase, closed, BreakerLaws, RetryLaws}
use shortn.Resilience.Example.{retry, retry_laws, cb, breaker_laws}
use shortn.Resilience.Reads.{IsRead, reads-IsRead}
use shortn.Resilience.Writes.{IsWrite, writes-IsWrite}
use shortn.Resilience.Sheds.{
  Operation, creates, gets, counts_clicks, lists, deletes, guarded, outcome, performed, AllFail,
  fresh, outcome-shed,
}

-- `broken` is the number of reads that still fail.
record World : Type 0 where
  phase : Phase
  broken : ℕ

abbrev Quiet : World → World → Type 0
Quiet w w' = w'.broken ≡ w.broken

abbrev phase : World → Phase
phase w = w.phase

abbrev set_phase : Phase → World → World
set_phase p w = record w { phase = p }

laws : BreakerLaws settings (cb phase set_phase settings) phase Quiet
laws = breaker_laws phase set_phase settings Quiet (λ w. refl) (λ p w. refl) (λ p w. refl)

tries : RetryLaws (retry {W = World}) Quiet
tries = retry_laws Quiet (λ w. refl)

abbrev read_at : {A : Type 0} → A → ℕ → Act World A
read_at a zero w = (ok a, w)
read_at a (suc n) w = (err (message "connection reset"), record w { broken = n })

abbrev next : LinkStore World
next = record {
  create = λ l w. (err (message "connection reset"), w);
  get_by_code = λ code w. read_at (draft code "https://go.dev") w.broken w;
  get_stats = λ code w. (err (message "connection reset"), w);
  list = λ limit offset w. (ok [], w);
  delete = λ code w. (err (message "connection reset"), w);
}

abbrev store : ResilientStore World
store = record { next = next; cb = cb phase set_phase settings; retry = retry }

-- One read fails, and is tried again.
abbrev blip : World
blip = record { phase = closed 0; broken = 1 }

get_by_code-retried :
    get_by_code store "a" blip
    ≡ (ok (draft "a" "https://go.dev"), record { phase = closed 0; broken = 0 })
unfolding get_by_code is_expected is_successful
get_by_code-retried = refl

reads-IsRead_example :
    IsRead Quiet
      (next.get_by_code "a")
      blip
      (get_by_code store "a" blip).0
      (get_by_code store "a" blip).1
    × IsRead Quiet
        (next.get_stats "a")
        blip
        (get_stats store "a" blip).0
        (get_stats store "a" blip).1
    × IsRead Quiet
        (next.list (pos 10) (pos 0))
        blip
        (list store (pos 10) (pos 0) blip).0
        (list store (pos 10) (pos 0) blip).1
reads-IsRead_example = reads-IsRead Quiet store phase laws tries "a" (pos 10) (pos 0) blip

gets_apart :
    (code : String) (n : ℕ) (p : Phase)
    → (guarded store (gets code) (record { phase = p; broken = n })).1.phase ≡ p
unfolding retry_read is_expected
gets_apart code zero p = refl
gets_apart code (suc zero) p = refl
gets_apart code (suc (suc n)) p = refl

apart : (o : Operation) (w : World) → (guarded store o w).1.phase ≡ w.phase
unfolding retry_read is_expected
apart (creates l) w = refl
apart (gets code) w = gets_apart code w.broken w.phase
apart (counts_clicks code) w = refl
apart (lists limit offset) w = refl
apart (deletes code) w = refl

abbrev creates_five : List Operation
creates_five = let o = creates (draft "a" "https://go.dev") in o ∷ o ∷ o ∷ o ∷ o ∷ []

all_fail : AllFail store creates_five blip
unfolding is_expected
all_fail =
    let e = message "connection reset" in
    (
      (e, refl, refl),
      ((e, refl, refl), ((e, refl, refl), ((e, refl, refl), ((e, refl, refl), tt)))),
    )

-- After five creates that fail a lookup is refused.
outcome-shed_example :
    ((outcome store (gets "a") (performed store creates_five blip)).0
      ≡ some (sentinel err_unavailable))
    × Quiet
        (performed store creates_five blip)
        (outcome store (gets "a") (performed store creates_five blip)).1
outcome-shed_example =
    outcome-shed store phase Quiet laws apart creates_five (gets "a") blip (fresh refl) refl
      all_fail

-- A create that fails is not tried again.
writes-IsWrite_example :
    IsWrite Quiet
      (next.create (draft "a" "https://go.dev"))
      blip
      (create store (draft "a" "https://go.dev") blip).0
      (create store (draft "a" "https://go.dev") blip).1
    × IsWrite Quiet (next.delete "a") blip (delete store "a" blip).0 (delete store "a" blip).1
writes-IsWrite_example = writes-IsWrite Quiet store phase laws (draft "a" "https://go.dev") "a" blip
