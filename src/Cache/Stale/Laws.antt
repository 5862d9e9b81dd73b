-- ===== src/Cache/Stale/Laws.antt =====
-- What a run of interleaved requests relies on, and lists of past worlds.
use shortn.Prelude.{
  ℕ, ◌+◌, ◌≤◌, ◌≡◌, ◌≢◌, ◌⊎◌, inl, inr, String, Bool, Option, none, some, List, [], ◌∷◌, All,
}
use shortn.Act.{ok, Act}
use shortn.Shortener.{Link}
use shortn.Cache.{CachingStore}
use shortn.Cache.Reads.{Answers}
use shortn.Cache.Stale.{Entry, Ages, Once}

-- From one world to another only the key may be written: to the value, which then expires no
-- later than the time to live from now on.
pub record IsWritten {W : Type 0} (held : W → String → Option Entry) (clock : W → ℕ) (k v : String)
    (ttl : ℕ) (w w' : W) : Type 0 where
  pub later : clock w ≤ clock w'
  pub others : (j : String) → j ≢ k → (held w' j ≡ held w j) ⊎ (held w' j ≡ none)
  pub here :
      (e : Entry)
      → held w' k ≡ some e
      → ((e.value ≡ v) × (e.expires ≤ clock w' + ttl)) ⊎ (held w k ≡ some e)

-- Redis drops an entry when it expires, and it and the store are apart; a read of the store
-- answers from what is stored, and a lookup that shares its flight with no other runs by itself.
pub record StaleLaws {W : Type 0} (s : CachingStore W) (held : W → String → Option Entry)
    (stored : W → String → Option String) (clock : W → ℕ) : Type 0 where
  pub alive : (k : String) (w : W) (e : Entry) → held w k ≡ some e → clock w ≤ e.expires
  pub get_ok :
      (k : String) {v : String} {w w' : W}
      → s.cache.get k w ≡ (ok v, w')
      → (e : Entry) × (held w k ≡ some e) × (e.value ≡ v)
  pub get_ages : (k : String) (w : W) → Ages held clock w (s.cache.get k w).1
  pub del_ages : (k : String) (w : W) → Ages held clock w (s.cache.del k w).1
  pub set_sets :
      (k v : String) (ttl : ℕ) (w : W) → IsWritten held clock k v ttl w (s.cache.set k v ttl w).1
  pub count_ages : (hit : Bool) (w : W) → Ages held clock w (s.count hit w)
  pub read_ages : (code : String) (w : W) → Ages held clock w (s.next.get_by_code code w).1
  pub create_ages : (link : Link) (w : W) → Ages held clock w (s.next.create link w).1
  pub delete_ages : (code : String) (w : W) → Ages held clock w (s.next.delete code w).1
  pub get_stored : (k c : String) (w : W) → stored (s.cache.get k w).1 c ≡ stored w c
  pub count_stored : (hit : Bool) (c : String) (w : W) → stored (s.count hit w) c ≡ stored w c
  pub read_stored : (code c : String) (w : W) → stored (s.next.get_by_code code w).1 c ≡ stored w c
  pub read_answers :
      (code : String) (w : W) → Answers (stored w code) code (s.next.get_by_code code w).0
  pub flight_runs : (code : String) (load : Act W Link) → s.flight code load ≡ load

module _ {W : Type 0} where
  pub Once-mono : {P Q : W → Type 0} (ws : List W) → ((w : W) → P w → Q w) → Once P ws → Once Q ws
  Once-mono [] f h = absurd h
  Once-mono (w ∷ ws) f (inl p) = inl (f w p)
  Once-mono (w ∷ ws) f (inr h) = inr (Once-mono ws f h)

  -- What holds of all worlds helps to conclude from what holds of one.
  pub Once-All :
      {P Q R : W → Type 0} (ws : List W)
      → All R ws
      → ((w : W) → R w → P w → Q w)
      → Once P ws
      → Once Q ws
  Once-All [] all f h = absurd h
  Once-All (w ∷ ws) all f (inl p) = inl (f w all.0 p)
  Once-All (w ∷ ws) all f (inr h) = inr (Once-All ws all.1 f h)
