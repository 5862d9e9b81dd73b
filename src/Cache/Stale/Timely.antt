-- ===== src/Cache/Stale/Timely.antt =====
-- What keeps the entries of Redis vouched for: a world that only ages, a lookup that starts, and a
-- write of what was right when it was read.
use shortn.Prelude.{
  ℕ, ◌+◌, ◌≤◌, ◌≡◌, ◌⊎◌, refl, sym, ap, inl, inr, String, true, false, Bool-cases, Option, none,
  some, List, ◌∷◌, arith, str_eq, eq_iff,
}
use mathlib.Core.Path.{subst}
use shortn.Act.{outcome_snd, Result}
use shortn.Shortener.{Link}
use shortn.Cache.{CachingStore, key}
use shortn.Cache.Coherent.{cached_value, key_injective}
use shortn.Cache.Reads.{Answers}
use shortn.Cache.Stale.{Entry, Flight, Flights, set_flight, Once, life, Ages, IsVouched, IsTimely}
use shortn.Cache.Stale.Laws.{IsWritten, StaleLaws, Once-mono}

module _ {W : Type 0} (s : CachingStore W) (held : W → String → Option Entry)
    (stored : W → String → Option String) (clock : W → ℕ) (delay : ℕ)
    (laws : StaleLaws s held stored clock) where
  abbrev pub Timely : List W → Flights → W → Type 0
  Timely past flights w = IsTimely s held stored clock delay past flights w

  abbrev Vouched : W → String → Entry → Type 0
  Vouched v code e = IsVouched s held stored clock delay v code e

  -- Nothing is written to Redis and no lookup starts.
  pub Ages-Timely :
      (past : List W) (flights flights' : Flights) (w w' : W)
      → ((name : String) → (flights' name ≡ flights name) ⊎ (flights' name ≡ none))
      → Ages held clock w w'
      → Timely past flights w
      → Timely (w' ∷ past) flights' w'
  Ages-Timely past flights flights' w w' fewer a t = record {
    flying = λ name f there. inr (t.flying name f (ground (arith, fewer name)));
    cached = λ code e there. inr (t.cached code e (ground (arith, a.faded (key code))));
  }

  pub same-Timely :
      (past : List W) (flights flights' : Flights) (w w' : W)
      → flights' ≡ flights
      → Ages held clock w w'
      → Timely past flights w
      → Timely (w' ∷ past) flights' w'
  same-Timely past flights flights' w w' same a t =
      Ages-Timely past flights flights' w w' (λ name. inl (ap (λ (g : Flights). g name) same)) a t

  pub stays : (w w' : W) → w ≡ w' → Ages held clock w w'
  stays w w' same =
      subst (Ages held clock w) same (record { later = omega arith; faded = λ k. inl refl })

  -- A lookup ends.
  pub without :
      (flights : Flights) (name : String) (other : String)
      → (set_flight flights name none other ≡ flights other)
        ⊎ (set_flight flights name none other ≡ none)
  without flights name other = elim (Bool-cases (str_eq other name)) [
    | inl same ↦ inr (rw same refl)
    | inr differs ↦ inl (rw differs refl)
  ]

  pub arrives :
      {A : Type 0} {p : Result A × W} {r : Result A} (w w' : W)
      → p ≡ (r, w')
      → Ages held clock w p.1
      → Ages held clock w w'
  arrives w w' e a = subst (Ages held clock w) (outcome_snd e) a

  started_flight :
      (flights : Flights) (name other : String) (g f : Flight)
      → str_eq other name ≡ true
      → set_flight flights name (some g) other ≡ some f
      → g ≡ f
  started_flight flights name other g f same there = ground arith

  other_flight :
      (flights : Flights) (name other : String) (g f : Flight)
      → str_eq other name ≡ false
      → set_flight flights name (some g) other ≡ some f
      → flights other ≡ some f
  other_flight flights name other g f differs there = ground arith

  pub looks_up-Timely :
      (past : List W) (flights : Flights) (w w' : W) (name code : String) (r : Result Link)
      → s.next.get_by_code code w ≡ (r, w')
      → Timely past flights w
      → Timely
          (w' ∷ past)
          (set_flight flights name (some (record { code = code; loaded = r; since = clock w' })))
          w'
  looks_up-Timely past flights w w' name code r p t =
      let g : Flight = record { code = code; loaded = r; since = clock w' } in
      let right : Answers (stored w' code) code r =
        subst (λ (q : Result Link × W). Answers (stored q.1 code) code q.0) p
          (rw (laws.read_stored code code w) (laws.read_answers code w)) in
      let a = arrives w w' p (laws.read_ages code w) in
      record {
        flying = λ other f there. elim (Bool-cases (str_eq other name)) [
          | inl same ↦ inl (
              subst
                (λ (h : Flight). (clock w' ≡ h.since) × Answers (stored w' h.code) h.code h.loaded)
                (started_flight flights name other g f same there) (refl, right))
          | inr differs ↦ inr (t.flying other f (other_flight flights name other g f differs there))
        ];
        cached = λ c e there. inr (t.cached c e (ground (arith, a.faded (key c))));
      }

  -- A value that was right when it was read is written soon after.
  pub set-Timely :
      (past : List W) (flights flights' : Flights) (w w' : W) (code : String)
      (found : Option String) (since : ℕ)
      → ((name : String) → (flights' name ≡ flights name) ⊎ (flights' name ≡ none))
      → IsWritten held clock (key code) (cached_value found) (life s.ttl found) w w'
      → clock w' ≤ since + delay
      → Once (λ v. (clock v ≡ since) × (stored v code ≡ found)) past
      → Timely past flights w
      → Timely (w' ∷ past) flights' w'
  set-Timely past flights flights' w w' code found since fewer set soon right t = record {
    flying = λ name f there. inr (t.flying name f (ground (arith, fewer name)));
    cached = λ d e there. inr (elim (Bool-cases (str_eq d code)) [
      | inl same ↦
          let q : d ≡ code = (eq_iff d code).0 same in
          subst (λ c. Once (λ v. Vouched v c e) past) (sym q)
            (elim (set.here e (subst (λ c. held w' (key c) ≡ some e) q there)) [
              | inl (value, expires) ↦
                  Once-mono past (λ v (then, found_then). rw found_then (value, omega arith)) right
              | inr old ↦ t.cached code e old
            ])
      | inr differs ↦ t.cached d e (
          ground (
            arith,
            set.others (key d)
                (λ k. absurd (let same = (eq_iff d code).1 (key_injective d code k) in cc)),
          ))
    ]);
  }
