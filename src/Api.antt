-- ===== src/Api.antt =====
-- internal/http: the HTTP layer. A request is what the handlers read of it, with the route's
-- parameter already matched by chi; a response is what they write. Logging and tracing are left out.
pub mod Links
pub mod Middleware
pub mod Router
pub mod Told
pub mod Idempotent
pub mod Paging
pub mod Redirects
pub mod Guards
pub mod ClientIp
mod Tests
use shortn.Prelude.{ℕ, String, Bool, List, Option, none, some}
use shortn.Act.{Result, Act}
use shortn.Shortener.{Time}

pub record Request : Type 0 where
  pub path : String
  -- the deadline of the request's context
  pub deadline : Option Time
  pub tls : Bool
  pub host : String
  pub remote_addr : String
  pub code : String
  pub body : String
  pub limit : String
  pub offset : String
  pub idempotency_key : String
  pub admin_key : String
  pub forwarded_for : String
  pub referer : String
  pub user_agent : String

pub record CreateResponse : Type 0 where
  pub code : String
  pub short_url : String
  pub long_url : String

pub record BucketResponse : Type 0 where
  pub bucket : Time
  pub count : ℕ

pub record StatsResponse : Type 0 where
  pub code : String
  pub total : ℕ
  pub series : List BucketResponse

pub record LinkSummary : Type 0 where
  pub code : String
  pub short_url : String
  pub long_url : String
  pub created_at : Time

pub data Body : Type 0 where
  no_body : Body
  text : String → Body
  error_body : String → Body
  created_body : CreateResponse → Body
  stats_body : StatsResponse → Body
  links_body : List LinkSummary → Body
  -- the page of http.Redirect, which links to the URL
  link_body : String → Body

pub record Response : Type 0 where
  pub status : ℕ
  pub body : Body
  pub location : Option String
  pub retry_after : Option ℕ
  pub served_by : Option String

-- w.WriteHeader, and the body behind it.
abbrev pub write : ℕ → Body → Response
write status body = record {
  status = status;
  body = body;
  location = none;
  retry_after = none;
  served_by = none;
}

-- errors.go
abbrev pub write_json : ℕ → Body → Response
write_json status body = write status body

abbrev pub write_error : ℕ → String → Response
write_error status why = write_json status (error_body why)

abbrev pub Handler : Type 0 → Type 0
Handler W = W → Response × W

-- A call of a dependency whose value and error the handler inspects.
abbrev pub call : {W A : Type 0} → Act W A → (Result A → Handler W) → Handler W
call m k w = let (r, w') = m w in k r w'

abbrev pub respond : {W : Type 0} → Response → Handler W
respond r w = (r, w)
