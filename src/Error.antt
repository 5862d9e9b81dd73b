-- ===== src/Error.antt =====
-- Go's error values: the sentinels that the program compares against, errors of its dependencies
-- that it inspects, plain messages, and the wrapping of `fmt.Errorf` with `%w`.
-- internal/shortener/shortener.go declares the domain's sentinels, internal/idgen/snowflake.go
-- `ErrClockRegressed`; the rest belong to context, gobreaker, go-redis and pgx.
use Prim.Native.String.{◌++◌}
use shortn.Prelude.{ℕ, String, Bool, false, ◌||◌, Option, none, some, ◌==◌}

pub data Sentinel : Type 0 where
  err_not_found err_code_exists err_invalid_url err_unavailable : Sentinel
  err_clock_regressed : Sentinel
  err_deadline_exceeded : Sentinel
  err_open_state err_too_many_requests : Sentinel
  err_redis_nil : Sentinel
  err_no_rows : Sentinel

pub data GoError : Type 0 where
  sentinel : Sentinel → GoError
  -- a `*pgconn.PgError` with its SQLSTATE code
  pg_error : String → GoError
  message : String → GoError
  -- the text of the whole error, and the error that `%w` wraps
  wrapped : String → GoError → GoError
  -- two errors that errors.Join has joined
  joined : GoError → GoError → GoError

abbrev tag : Sentinel → ℕ
tag err_not_found = 0
tag err_code_exists = 1
tag err_invalid_url = 2
tag err_unavailable = 3
tag err_clock_regressed = 4
tag err_deadline_exceeded = 5
tag err_open_state = 6
tag err_too_many_requests = 7
tag err_redis_nil = 8
tag err_no_rows = 9

-- errors.Is(e, target) for a sentinel target: along the tree of wrapped errors.
abbrev pub errors_is : GoError → Sentinel → Bool
errors_is (sentinel s) target = tag s == tag target
errors_is (pg_error code) target = false
errors_is (message text) target = false
errors_is (wrapped text e) target = errors_is e target
errors_is (joined e f) target = errors_is e target || errors_is f target

-- errors.As(e, &pgErr), and its code.
abbrev pub pg_code : GoError → Option String
pg_code (pg_error code) = some code
pg_code (sentinel s) = none
pg_code (message text) = none
pg_code (wrapped text e) = pg_code e
pg_code (joined e f) = elim (pg_code e) [ some code ↦ some code | none ↦ pg_code f ]

-- e.Error(). The text of another package's error is that package's: here its code stands for it.
abbrev pub error_text : GoError → String
error_text (sentinel err_not_found) = "link not found"
error_text (sentinel err_code_exists) = "code already exists"
error_text (sentinel err_invalid_url) = "invalid url"
error_text (sentinel err_unavailable) = "service temporarily unavailable"
error_text (sentinel err_clock_regressed) = "clock moved backwards; refusing to generate ID"
error_text (sentinel err_deadline_exceeded) = "context deadline exceeded"
error_text (sentinel err_open_state) = "circuit breaker is open"
error_text (sentinel err_too_many_requests) = "too many requests"
error_text (sentinel err_redis_nil) = "redis: nil"
error_text (sentinel err_no_rows) = "no rows in result set"
error_text (pg_error code) = code
error_text (message text) = text
error_text (wrapped text e) = text
error_text (joined e f) = (error_text e ++ "\n") ++ error_text f

-- fmt.Errorf("<prefix>: %w", e)
abbrev pub errorf : String → GoError → GoError
errorf prefix e = wrapped ((prefix ++ ": ") ++ error_text e) e

-- fmt.Errorf("%w: <suffix>", e)
abbrev pub errorf_after : GoError → String → GoError
errorf_after e suffix = wrapped (error_text e ++ (": " ++ suffix)) e

-- errors.Join(e, f), of errors that may be nil.
abbrev pub errors_join : Option GoError → Option GoError → Option GoError
errors_join none none = none
errors_join (some e) none = some (wrapped (error_text e) e)
errors_join none (some f) = some (wrapped (error_text f) f)
errors_join (some e) (some f) = some (joined e f)
