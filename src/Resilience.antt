-- ===== src/Resilience.antt =====
-- internal/resilience/resilience.go: a LinkStore behind a circuit breaker, with quick retries of
-- reads. gobreaker and backoff are parameters: `cb` is CircuitBreaker.Execute, `retry` the call of
-- backoff.Retry with a backoff of these settings. Logging is left out.
pub mod Laws
pub mod Tries
pub mod Calls
pub mod Reads
pub mod Writes
pub mod Sheds
pub mod Example
mod Tests
use shortn.Prelude.{ℕ, String, Bool, true, ◌||◌, Option, none, some, List, leb, if◌then◌else◌}
use shortn.Prelude.Int.{ℤ}
use shortn.Error.{
  GoError, sentinel, message, err_not_found, err_code_exists, err_unavailable, err_open_state,
  err_too_many_requests, errors_is,
}
use shortn.Act.{Result, ok, err, Act, pure, fail, lift, attempt, ◌>>=◌}
use shortn.Shortener.{Link, Stats, LinkStore}

abbrev pub breaker_max_consec_fails : ℕ
breaker_max_consec_fails = 5

abbrev pub breaker_cooldown_ms : ℕ
breaker_cooldown_ms = 5000

abbrev pub breaker_half_open_probes : ℕ
breaker_half_open_probes = 1

abbrev pub retry_initial_interval_ms : ℕ
retry_initial_interval_ms = 20

abbrev pub retry_max_elapsed_ms : ℕ
retry_max_elapsed_ms = 300

-- The values that pass through the breaker as `any`.
pub data Any : Type 0 where
  nil : Any
  link : Link → Any
  stats : Stats → Any
  links : List Link → Any

-- What an operation returns to backoff.Retry: nil, backoff.Permanent(err) or err.
pub data Verdict : Type 0 where
  done : Verdict
  permanent : GoError → Verdict
  transient : GoError → Verdict

-- gobreaker.Settings. ReadyToTrip is given ConsecutiveFailures of the counts, IsSuccessful the
-- error, `none` for nil.
pub record Settings : Type 0 where
  pub max_requests : ℕ
  pub timeout_ms : ℕ
  pub ready_to_trip : ℕ → Bool
  pub is_successful : Option GoError → Bool

unfoldable pub is_expected : GoError → Bool
is_expected e = errors_is e err_not_found || errors_is e err_code_exists

unfoldable pub is_successful : Option GoError → Bool
is_successful none = true
is_successful (some e) = is_expected e

unfoldable pub ready_to_trip : ℕ → Bool
ready_to_trip consecutive_failures = leb breaker_max_consec_fails consecutive_failures

abbrev pub settings : Settings
settings = record {
  max_requests = breaker_half_open_probes;
  timeout_ms = breaker_cooldown_ms;
  ready_to_trip = ready_to_trip;
  is_successful = is_successful;
}

-- ResilientStore, with the two libraries as far as it calls them. The operation that `retry` runs
-- acts on the variable `result` beside the world.
pub record ResilientStore (W : Type 0) : Type 0 where
  pub next : LinkStore W
  pub cb : Act W Any → Act W Any
  pub retry : (Any × W → Verdict × (Any × W)) → Act (Any × W) (Unit {0})

-- NewResilientStore. `new_circuit_breaker` is gobreaker.NewCircuitBreaker, `backoff_retry` the
-- backoff.Retry under an initial interval and a maximal elapsed time.
abbrev pub new_resilient_store :
    {W : Type 0}
    → (Settings → Act W Any → Act W Any)
    → (ℕ → ℕ → (Any × W → Verdict × (Any × W)) → Act (Any × W) (Unit {0}))
    → LinkStore W
    → ResilientStore W
new_resilient_store new_circuit_breaker backoff_retry next = record {
  next = next;
  cb = new_circuit_breaker settings;
  retry = backoff_retry retry_initial_interval_ms retry_max_elapsed_ms;
}

-- A type assertion that fails is a panic of the handler.
abbrev pub panicked : GoError
panicked = message "panic: interface conversion"

-- res.(*shortener.Link), res.(shortener.Stats), res.([]*shortener.Link)
unfoldable pub as_link : Any → Result Link
as_link (link l) = ok l
as_link nil = err panicked
as_link (stats s) = err panicked
as_link (links ls) = err panicked

unfoldable pub as_stats : Any → Result Stats
as_stats (stats s) = ok s
as_stats nil = err panicked
as_stats (link l) = err panicked
as_stats (links ls) = err panicked

unfoldable pub as_links : Any → Result (List Link)
as_links (links ls) = ok ls
as_links nil = err panicked
as_links (link l) = err panicked
as_links (stats s) = err panicked

-- What the pointer of Create points to after the call.
unfoldable pub filled : Link → Any → Link
filled l (link made) = made
filled l nil = l
filled l (stats s) = l
filled l (links ls) = l

-- The operation given to backoff.Retry, by the error of `op`.
unfoldable pub judged : {W : Type 0} → Any → Result Any × W → Verdict × (Any × W)
judged result (ok r, w) = (done, (r, w))
judged result (err e, w) = (if is_expected e then permanent e else transient e, (result, w))

abbrev pub try_once : {W : Type 0} → Act W Any → Any × W → Verdict × (Any × W)
try_once op (result, w) = judged result (op w)

unfoldable pub with_result : {W : Type 0} → Result (Unit {0}) × (Any × W) → Result Any × W
with_result (ok _, (result, w)) = (ok result, w)
with_result (err e, (result, w)) = (err e, w)

module _ {W : Type 0} (s : ResilientStore W) where
  unfoldable pub answered : Result Any → Act W Any
  answered (ok r) = pure r
  answered (err e) =
      if errors_is e err_open_state || errors_is e err_too_many_requests
      then fail (sentinel err_unavailable)
      else fail e

  unfoldable pub execute : Act W Any → Act W Any
  unfolding answered
  execute op = do reply ← attempt (s.cb op); answered reply

  unfoldable pub retry_read : Act W Any → Act W Any
  unfolding with_result judged
  retry_read op w = with_result (s.retry (try_once op) (nil, w))

  -- The closure returns nil, and nothing is asserted of the value: what the store writes through
  -- the pointer travels as the value.
  unfoldable pub create : Link → Act W Link
  unfolding execute filled
  create l = do res ← execute (s.next.create l >>= λ made. pure (link made)); pure (filled l res)

  unfoldable pub get_by_code : String → Act W Link
  unfolding execute retry_read as_link
  get_by_code code = do
    res ← execute (retry_read (s.next.get_by_code code >>= λ l. pure (link l)))
    lift (as_link res)

  unfoldable pub get_stats : String → Act W Stats
  unfolding execute retry_read as_stats
  get_stats code = do
    res ← execute (retry_read (s.next.get_stats code >>= λ st. pure (stats st)))
    lift (as_stats res)

  unfoldable pub list : ℤ → ℤ → Act W (List Link)
  unfolding execute retry_read as_links
  list limit offset = do
    res ← execute (retry_read (s.next.list limit offset >>= λ ls. pure (links ls)))
    lift (as_links res)

  unfoldable pub delete : String → Act W (Unit {0})
  unfolding execute
  delete code = do res ← execute (s.next.delete code >>= λ _. pure nil); pure tt

  -- *ResilientStore is a LinkStore.
  unfoldable pub resilient_store : LinkStore W
  unfolding create get_by_code get_stats list delete
  resilient_store = record {
    create = create;
    get_by_code = get_by_code;
    get_stats = get_stats;
    list = list;
    delete = delete;
  }
