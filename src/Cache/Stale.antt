-- ===== src/Cache/Stale.antt =====
-- Requests that interleave at the cache: a lookup that missed reads the store in one step and
-- writes what it read to Redis in a later one, and anything may happen in between.
pub mod Laws
pub mod Timely
pub mod Runs
pub mod Bound
pub mod Tests
use shortn.Prelude.{
  ℕ, ◌+◌, ◌≤◌, ◌≡◌, ◌≢◌, ◌⊎◌, String, Bool, true, Option, none, some, List, [], ◌∷◌, str_eq,
  if◌then◌else◌,
}
use shortn.Error.{GoError, err_not_found, errors_is}
use shortn.Act.{Result, ok, err, Act}
use shortn.Shortener.{Link}
use shortn.Cache.{CachingStore, tombstone, negative_ttl, key, remember, create, invalidate}
use shortn.Cache.Coherent.{cached_value}
use shortn.Cache.Reads.{Answers}

-- What Redis holds at a key, and until when.
pub record Entry : Type 0 where
  pub value : String
  pub expires : ℕ

-- A lookup between its read of the store, whose answer came at `since`, and its write.
pub record Flight : Type 0 where
  pub code : String
  pub loaded : Result Link
  pub since : ℕ

-- The lookups under way, by the names of their requests.
abbrev pub Flights : Type 0
Flights = String → Option Flight

abbrev pub set_flight : Flights → String → Option Flight → Flights
set_flight flights name f other = if str_eq other name then f else flights other

-- One of the worlds has the property.
abbrev pub Once : {W : Type 0} → (W → Type 0) → List W → Type 0
Once P [] = ⊥
Once P (w ∷ ws) = P w ⊎ Once P ws

-- How long an answer of the store is cached.
abbrev pub life : ℕ → Option String → ℕ
life ttl none = negative_ttl
life ttl (some url) = ttl

module _ {W : Type 0} (held : W → String → Option Entry) (clock : W → ℕ) where
  -- Time goes on; no entry is written, but entries may expire.
  pub record Ages (w w' : W) : Type 0 where
    pub later : clock w ≤ clock w'
    pub faded : (k : String) → (held w' k ≡ held w k) ⊎ (held w' k ≡ none)

module _ {W : Type 0} (s : CachingStore W) (held : W → String → Option Entry)
    (stored : W → String → Option String) (clock : W → ℕ) (delay : ℕ) where
  -- One event, from the world and the lookups before it to those after it. A lookup writes to
  -- Redis no later than `delay` after the answer of the store, or not at all.
  pub data Step (w : W) (flights : Flights) : W → Flights → Type 0 where
    looks_up :
        {w' : W} {flights' : Flights} (name code : String) (r : Result Link)
        → flights name ≡ none
        → s.next.get_by_code code w ≡ (r, w')
        → flights'
          ≡ set_flight flights name (some (record { code = code; loaded = r; since = clock w' }))
        → Step w flights w' flights'
    fills :
        {w' : W} {flights' : Flights} (name : String) (f : Flight) (r : Result Link)
        → flights name ≡ some f
        → remember s f.code f.loaded w ≡ (r, w')
        → clock w' ≤ f.since + delay
        → flights' ≡ set_flight flights name none
        → Step w flights w' flights'
    gives_up :
        {w' : W} {flights' : Flights} (name : String)
        → w' ≡ w
        → flights' ≡ set_flight flights name none
        → Step w flights w' flights'
    creates :
        {w' : W} {flights' : Flights} (link : Link) (r : Result Link)
        → create s link w ≡ (r, w')
        → flights' ≡ flights
        → Step w flights w' flights'
    -- the two halves of Delete
    removes :
        {w' : W} {flights' : Flights} (code : String) (r : Result (Unit {0}))
        → s.next.delete code w ≡ (r, w')
        → flights' ≡ flights
        → Step w flights w' flights'
    drops :
        {w' : W} {flights' : Flights} (code : String) (r : Result (Unit {0}))
        → invalidate s code w ≡ (r, w')
        → flights' ≡ flights
        → Step w flights w' flights'
    checks :
        {w' : W} {flights' : Flights} (code : String) (r : Result String)
        → s.cache.get (key code) w ≡ (r, w')
        → flights' ≡ flights
        → Step w flights w' flights'
    passes :
        {w' : W} {flights' : Flights}
        → Ages held clock w w'
        → flights' ≡ flights
        → Step w flights w' flights'

  -- The worlds of a run from an empty cache on, the last one first.
  pub data Run : List W → Flights → W → Type 0 where
    starts :
        {w : W} {flights : Flights}
        → ((k : String) → held w k ≡ none)
        → ((name : String) → flights name ≡ none)
        → Run (w ∷ []) flights w
    then_step :
        {past : List W} {w w' : W} {flights flights' : Flights}
        → Run past flights w
        → Step w flights w' flights'
        → Run (w' ∷ past) flights' w'

  -- Redis holds what was right when the answer came from the store, for no longer than the
  -- delay and the time to live after that.
  abbrev pub IsVouched : W → String → Entry → Type 0
  IsVouched v code e =
      (e.value ≡ cached_value (stored v code))
      × (e.expires ≤ clock v + delay + life s.ttl (stored v code))

  pub record IsTimely (past : List W) (flights : Flights) (w : W) : Type 0 where
    pub flying :
        (name : String) (f : Flight)
        → flights name ≡ some f
        → Once (λ v. (clock v ≡ f.since) × Answers (stored v f.code) f.code f.loaded) past
    pub cached :
        (code : String) (e : Entry)
        → held w (key code) ≡ some e
        → Once (λ v. IsVouched v code e) past

  -- The answer of a lookup at the world w was right at one of the worlds, and not long ago.
  abbrev pub WasRight : List W → W → String → Result Link → Type 0
  WasRight past w code (ok link) =
      (link.code ≡ code)
      × Once (λ v. (stored v code ≡ some link.long_url) × (clock w ≤ clock v + delay + s.ttl)) past
  WasRight past w code (err e) =
      errors_is e err_not_found ≡ true
      → Once (λ v. (stored v code ≡ none) × (clock w ≤ clock v + delay + negative_ttl)) past
