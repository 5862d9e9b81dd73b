-- ===== src/Cache/Stale/Tests.antt =====
-- A lookup that reads the store before a delete, and writes to Redis after it.
use shortn.Prelude.{
  ℕ, ◌+◌, ◌≤◌, ◌≡◌, ◌≢◌, ◌⊎◌, refl, inl, inr, ap, sym, String, Bool-cases, Option, none, some, List,
  [], ◌∷◌, arith, str_eq, leb, if◌then◌else◌,
}
use shortn.Error.{sentinel, err_redis_nil, message}
use shortn.Act.{Result, ok, err}
use shortn.Redis.{Redis}
use shortn.Shortener.{LinkStore, draft}
use shortn.Cache.{
  CachingStore, tombstone, key, remember, client_set, client_del, invalidate, get_by_code,
}
use shortn.Cache.Tests.{
  Table, update, update_self, update_other, found_in, found_in_world, not_tombstone,
}
use shortn.Cache.Reads.{Answers}
use shortn.Cache.Stale.{
  Entry, Flight, Flights, set_flight, Ages, looks_up, fills, removes, drops, passes, Run, starts,
  then_step, WasRight,
}
use shortn.Cache.Stale.Laws.{StaleLaws}
use shortn.Cache.Stale.Bound.{get_by_code-WasRight}

record World : Type 0 where
  now : ℕ
  entries : String → Option Entry
  stored : Table

abbrev live : ℕ → Option Entry → Option Entry
live now none = none
live now (some e) = if leb now e.expires then some e else none

abbrev held : World → String → Option Entry
held w k = live w.now (w.entries k)

abbrev got : World → Option Entry → Result String × World
got w none = (err (sentinel err_redis_nil), w)
got w (some e) = (ok e.value, w)

abbrev written : String → ℕ → World → Entry
written v ttl w = record { value = v; expires = w.now + ttl }

abbrev redis : Redis World
redis = record {
  get = λ k w. got w (held w k);
  set = λ k v ttl w. (ok tt, record w { entries = update w.entries k (some (written v ttl w)) });
  set_nx = λ k v ttl w. (err (message "unused"), w);
  del = λ k w. (ok tt, record w { entries = update w.entries k none });
}

abbrev source : LinkStore World
source = record {
  create =
      λ link w. (ok link, record w { stored = update w.stored link.code (some link.long_url) });
  get_by_code = λ code w. found_in code w (w.stored code);
  get_stats = λ code w. (err (message "unused"), w);
  list = λ limit offset w. (ok [], w);
  delete = λ code w. (ok tt, record w { stored = update w.stored code none });
}

abbrev store : CachingStore World
store = record {
  next = source;
  cache = redis;
  ttl = 1000;
  flight = λ code load. load;
  count = λ hit w. w;
}

abbrev stored : World → Table
stored w = w.stored

abbrev clock : World → ℕ
clock w = w.now

stays : (w w' : World) → w' ≡ w → Ages held clock w w'
stays w w' same = record {
  later = let e = ap (λ (u : World). u.now) same in omega arith;
  faded = λ k. inl (ap (λ (u : World). held u k) same);
}

got_world : (w : World) (o : Option Entry) → (got w o).1 ≡ w
got_world w none = refl
got_world w (some e) = refl

live_lem :
    (now : ℕ) (o : Option Entry) (e : Entry)
    → live now o ≡ some e
    → (o ≡ some e) × (now ≤ e.expires)
live_lem now none e h = cc
live_lem now (some x) e h = ground arith

got_ok :
    (w w' : World) (o : Option Entry) (v : String)
    → got w o ≡ (ok v, w')
    → (e : Entry) × (o ≡ some e) × (e.value ≡ v)
got_ok w w' none v h = cc
got_ok w w' (some e) v h = (e, refl, ground arith)

updated :
    (now : ℕ) (t : String → Option Entry) (k : String) (e : Entry) (x : Entry)
    → live now (update t k (some e) k) ≡ some x
    → e ≡ x
updated now t k e x h =
    let (there, alive) = live_lem now (update t k (some e) k) x h in
    let same = update_self t k (some e) in ground arith

dropped :
    (now : ℕ) (t : String → Option Entry) (k j : String)
    → (live now (update t k none j) ≡ live now (t j)) ⊎ (live now (update t k none j) ≡ none)
dropped now t k j = elim (Bool-cases (str_eq j k)) [
  | inl same ↦ inr (rw same refl)
  | inr other ↦ inl (rw other refl)
]

found_in-Answers :
    (code : String) (o : Option String) (w : World) → Answers o code (found_in code w o).0
found_in-Answers code none w = λ h. refl
found_in-Answers code (some url) w = (refl, refl)

laws : StaleLaws store held stored clock
laws = record {
  alive = λ k w e h. (live_lem w.now (w.entries k) e h).1;
  get_ok = λ k {v} {w} {w'} h. got_ok w w' (held w k) v h;
  get_ages = λ k w. stays w (got w (held w k)).1 (got_world w (held w k));
  del_ages = λ k w. record { later = omega arith; faded = λ j. dropped w.now w.entries k j };
  set_sets = λ k v ttl w. record {
    later = omega arith;
    others = λ j other.
        inl (ap (live w.now) (update_other w.entries k j (some (written v ttl w)) other));
    here = λ e h.
        let same = updated w.now w.entries k (written v ttl w) e h in
        inl (sym (ap (λ (x : Entry). x.value) same), ground arith);
  };
  count_ages = λ hit w. stays w w refl;
  read_ages =
      λ code w. stays w (found_in code w (w.stored code)).1 (found_in_world code (w.stored code) w);
  create_ages = λ link w. record { later = omega arith; faded = λ k. inl refl };
  delete_ages = λ code w. record { later = omega arith; faded = λ k. inl refl };
  get_stored = λ k c w. ap (λ (u : World). u.stored c) (got_world w (held w k));
  count_stored = λ hit c w. refl;
  read_stored = λ code c w. ap (λ (u : World). u.stored c) (found_in_world code (w.stored code) w);
  read_answers = λ code w. found_in-Answers code (w.stored code) w;
  flight_runs = λ code load. refl;
}

-- The lookup reads the row, then the code is deleted, row and entry, and then the lookup writes.
abbrev empty : World
empty = record {
  now = 7;
  entries = λ k. none;
  stored = λ code. if str_eq code "a" then some "http://x" else none;
}

abbrev removed : World
removed = (source.delete "a" empty).1

abbrev invalidated : World
invalidated = (redis.del (key "a") removed).1

abbrev later : World
later = record invalidated { now = 40 }

abbrev filled : World
filled = (redis.set (key "a") "http://x" 1000 later).1

nothing : (now : ℕ) (k : String) → live now (update empty.entries (key "a") none k) ≡ none
nothing now k = elim (Bool-cases (str_eq k (key "a"))) [
  | inl same ↦ rw same refl
  | inr other ↦ rw other refl
]

abbrev idle : Flights
idle name = none

abbrev lookup : Flight
lookup = record { code = "a"; loaded = ok (draft "a" "http://x"); since = 7 }

abbrev under_way : Flights
under_way = set_flight idle "r" (some lookup)

abbrev past : List World
past = filled ∷ later ∷ invalidated ∷ removed ∷ empty ∷ empty ∷ []

run : Run store held stored clock 100 past (set_flight under_way "r" none) filled
unfolding remember client_set client_del invalidate
run =
    then_step
      (then_step
        (then_step
          (then_step
            (then_step (starts (λ k. refl) (λ name. refl))
              (looks_up "r" "a" (ok (draft "a" "http://x")) refl refl refl))
            (removes "a" (ok tt) refl refl))
          (drops "a" (ok tt) refl refl))
        (passes (record { later = omega arith; faded = λ k. inr (nothing 40 k) }) refl))
      (fills "r" lookup (ok (draft "a" "http://x")) refl refl (omega arith) refl)

-- The deleted code still resolves.
deleted_test : (get_by_code store "a" filled).0 ≡ ok (draft "a" "http://x")
unfolding get_by_code
deleted_test = refl

no_url : (url : String) → ◌≡◌ {A = Option String} none (some url) → url ≢ tombstone
no_url url h = absurd cc

one_url : (url : String) → ◌≡◌ {A = Option String} (some "http://x") (some url) → url ≢ tombstone
one_url url h = ground (arith, not_tombstone)

get_by_code-WasRight_example :
    WasRight store held stored clock 100 past filled "a" (get_by_code store "a" filled).0
get_by_code-WasRight_example =
    get_by_code-WasRight store held stored clock 100 laws "a" run
      (no_url, (no_url, (no_url, (no_url, (one_url, (one_url, tt))))))
