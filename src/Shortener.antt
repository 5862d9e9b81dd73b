-- ===== src/Shortener.antt =====
-- internal/shortener/shortener.go: the domain. `W` is the world that the injected store and
-- generator act on. Times are counts of microseconds, as in Postgres.
pub mod Url
pub mod Create
mod Tests
use shortn.Prelude.{ℕ, zero, suc, String, Option, none, List, if◌then◌else◌}
use shortn.Prelude.Int.{ℤ}
use shortn.Error.{GoError, err_code_exists, message, errors_is, errorf}
use shortn.Act.{Result, ok, err, Act, pure, fail, lift, attempt, ◌>>=◌}
use Url.{UrlLib, normalize_url}

abbrev pub Time : Type 0
Time = ℕ

abbrev pub max_create_retries : ℕ
max_create_retries = 5

pub record Link : Type 0 where
  pub id : ℕ
  pub code : String
  pub long_url : String
  pub created_at : Time
  -- `none` never expires
  pub expires_at : Option Time
  pub click_count : ℕ

pub record ClickBucket : Type 0 where
  pub bucket : Time
  pub count : ℕ

pub record Stats : Type 0 where
  pub code : String
  pub total : ℕ
  pub series : List ClickBucket

-- Create fills in the fields that the database sets: it returns the link as it is afterwards.
pub record LinkStore (W : Type 0) : Type 0 where
  pub create : Link → Act W Link
  pub get_by_code : String → Act W Link
  pub get_stats : String → Act W Stats
  pub list : ℤ → ℤ → Act W (List Link)
  pub delete : String → Act W (Unit {0})

pub record IdGenerator (W : Type 0) : Type 0 where
  pub generate : Act W String

pub record Service (W : Type 0) : Type 0 where
  pub store : LinkStore W
  pub idgen : IdGenerator W

-- &Link{Code: code, LongURL: normalized}: every other field is zero.
abbrev pub draft : String → String → Link
draft code url = record {
  id = 0;
  code = code;
  long_url = url;
  created_at = 0;
  expires_at = none;
  click_count = 0;
}

abbrev pub no_unique_code : GoError
no_unique_code = message "could not generate a unique code after 5 attempts"

module _ {W : Type 0} (s : Service W) where
  -- The switch on the error of store.Create; `again` is the rest of the loop.
  after_insert : Act W Link → Result Link → Act W Link
  after_insert again (ok link) = pure link
  after_insert again (err e) =
      if errors_is e err_code_exists then again else fail (errorf "persisting link" e)

  -- The body of the loop, from the result of Generate.
  after_generate : String → Act W Link → Result String → Act W Link
  unfolding after_insert
  after_generate url again (err e) = fail (errorf "generating code" e)
  after_generate url again (ok code) = do
    inserted ← attempt (s.store.create (draft code url))
    after_insert again inserted

  -- The retry loop with the rounds that are left.
  unfoldable pub create_loop : ℕ → String → Act W Link
  unfolding after_generate
  create_loop zero url = fail no_unique_code
  create_loop (suc rounds) url =
      let again = create_loop rounds url in
      do generated ← attempt s.idgen.generate; after_generate url again generated

  unfoldable pub create : UrlLib → String → Act W Link
  create lib raw_url = do
    normalized ← lift (normalize_url lib raw_url)
    create_loop max_create_retries normalized

  unfoldable pub resolve : String → Act W Link
  resolve code = s.store.get_by_code code

  unfoldable pub stats : String → Act W Stats
  stats code = s.store.get_stats code

  unfoldable pub list : ℤ → ℤ → Act W (List Link)
  list limit offset = s.store.list limit offset

  unfoldable pub delete : String → Act W (Unit {0})
  delete code = s.store.delete code
