-- ===== src/Idgen/Snowflake/Fleet/Unique.antt =====
-- No two calls of a fleet ever return the same code.
use mathlib.Core.List.{Nodup, Nodup-nil, Nodup-cons}
use shortn.Prelude.{
  ℕ, ◌^◌, ◌<◌, ◌≤◌, String, ◌≡◌, refl, ap, ◌∙◌, List, [], ◌∷◌, All, All-mono, not-mem_of_All, arith,
  Bool-cases, inl, inr, ◌==◌, ==_iff,
}
use shortn.Act.{Result, ok, Result-cases}
use shortn.Idgen.Snowflake.{Generator, max_worker_id, generate}
use shortn.Idgen.Snowflake.Layout.{layout, pack-lt, pack-eq-layout, worker_of, worker_of-layout}
use shortn.Idgen.Snowflake.Fleet.{Call, IsSane, Fleet, IsFleet, served, after, codes}
use shortn.Idgen.Snowflake.Fleet.Step.{Stepped, generate-Stepped, sane_window}

-- sqids decodes every code that it returns to the number that was encoded.
abbrev pub IsEncoding : (ℕ → Result String) → Type 0
IsEncoding encode =
    (a b : ℕ) (code : String)
    → a < 2 ^ 64
    → b < 2 ^ 64
    → encode a ≡ ok code
    → encode b ≡ ok code
    → a ≡ b

module _ (encode : ℕ → Result String) where
  -- A code of an instance's identifier above the last one that the instance has used.
  record IsFresh (fleet : Fleet) (code : String) : Type 0 where
    id : ℕ
    small : id < 2 ^ 64
    known : worker_of id ≤ max_worker_id
    encoded : encode id ≡ ok code
    above : layout (fleet (worker_of id)) < id

  stepped :
      (fleet : Fleet) (c : Call)
      → IsFleet fleet
      → IsSane c
      → Stepped encode
          (fleet c.worker)
          (served encode c fleet)
          (generate encode c.first c.second (fleet c.worker)).1
  stepped fleet c v s =
      generate-Stepped encode c.first c.second (fleet c.worker) (v c.worker s.known).0
        (sane_window c.first c.second s.after_epoch s.slept s.before_end)

  -- The instance that served a call, and the generator that the call left there.
  abbrev left : Fleet → Call → Generator
  left fleet c = (generate encode c.first c.second (fleet c.worker)).1

  after_self : (fleet : Fleet) (c : Call) → after encode c fleet c.worker ≡ left fleet c
  after_self fleet c = rw ((==_iff c.worker c.worker).1 refl)

  after-IsFleet :
      (fleet : Fleet) (c : Call) → IsFleet fleet → IsSane c → IsFleet (after encode c fleet)
  after-IsFleet fleet c v s i h = elim (Bool-cases (c.worker == i)) [
    | inl same ↦
        let st = stepped fleet c v s in
        let e = (==_iff c.worker i).0 same in
        rw same (st.valid, st.worker ∙ (v c.worker s.known).1 ∙ e)
    | inr other ↦ rw other (v i h)
  ]

  layout-after :
      (fleet : Fleet) (c : Call)
      → IsFleet fleet
      → IsSane c
      → (i : ℕ) → layout (fleet i) ≤ layout (after encode c fleet i)
  layout-after fleet c v s i = elim (Bool-cases (c.worker == i)) [
    | inl same ↦
        let st = stepped fleet c v s in
        let e = (==_iff c.worker i).0 same in rw (same, ← e) st.grows
    | inr other ↦ rw other (omega arith)
  ]

  IsFresh-before :
      (fleet : Fleet) (c : Call)
      → IsFleet fleet
      → IsSane c
      → (code : String) → IsFresh (after encode c fleet) code
      → IsFresh fleet code
  IsFresh-before fleet c v s code f = record {
    id = f.id;
    small = f.small;
    known = f.known;
    encoded = f.encoded;
    above = omega (arith, layout-after fleet c v s (worker_of f.id), f.above);
  }

  -- A code that a call returned.
  module _ (fleet : Fleet) (c : Call) (v : IsFleet fleet) (s : IsSane c) (code : String)
      (e : served encode c fleet ≡ ok code) where
    left_worker : worker_of (layout (left fleet c)) ≡ c.worker
    left_worker =
        let st = stepped fleet c v s in
        worker_of-layout (left fleet c) st.valid ∙ st.worker ∙ (v c.worker s.known).1

    left_small : layout (left fleet c) < 2 ^ 64
    left_small =
        let st = stepped fleet c v s in
        omega (arith, pack-eq-layout (left fleet c) st.valid, pack-lt (left fleet c) st.valid)

    served-IsFresh : IsFresh fleet code
    served-IsFresh =
        let st = stepped fleet c v s in
        let (more, encoded) = st.issued code e in
        record {
          id = layout (left fleet c);
          small = left_small;
          known = rw left_worker s.known;
          encoded = encoded;
          above = rw left_worker more;
        }

    served-not-IsFresh : IsEncoding encode → ¬ IsFresh (after encode c fleet) code
    served-not-IsFresh decodes f =
        let st = stepped fleet c v s in
        let (more, encoded) = st.issued code e in
        let same : f.id ≡ layout (left fleet c) =
          decodes _ _ code f.small left_small f.encoded encoded in
        let worker : worker_of f.id ≡ c.worker = ap worker_of same ∙ left_worker in
        let above : layout (left fleet c) < f.id = rw (worker, after_self fleet c) at f.above in
        omega arith

  codes-IsFresh :
      (fleet : Fleet) (cs : List Call)
      → IsFleet fleet
      → All IsSane cs
      → All (IsFresh fleet) (codes encode fleet cs)
  unfolding codes
  codes-IsFresh fleet [] v s = tt
  codes-IsFresh fleet (c ∷ cs) v (s, ss) =
      let rest =
        All-mono (codes encode (after encode c fleet) cs) (IsFresh-before fleet c v s)
          (codes-IsFresh (after encode c fleet) cs (after-IsFleet fleet c v s) ss) in
      elim (Result-cases (served encode c fleet)) [
        | inl (code, e) ↦ rw e (served-IsFresh fleet c v s code e, rest)
        | inr (_, e) ↦ rw e rest
      ]

  -- No code is returned twice by a fleet of generators with distinct worker ids, in any order of
  -- calls, if the encoder is injective and each clock reads within its 41 bits and moves on
  -- during the sleep.
  pub codes-Nodup :
      (fleet : Fleet) (cs : List Call)
      → IsEncoding encode
      → IsFleet fleet
      → All IsSane cs
      → Nodup (codes encode fleet cs)
  unfolding codes
  codes-Nodup fleet [] decodes v s = Nodup-nil
  codes-Nodup fleet (c ∷ cs) decodes v (s, ss) =
      let v' = after-IsFleet fleet c v s in
      let rest = codes-Nodup (after encode c fleet) cs decodes v' ss in
      elim (Result-cases (served encode c fleet)) [
        | inl (code, e) ↦ rw e (
            Nodup-cons.1 (
              not-mem_of_All (IsFresh (after encode c fleet)) _
                  (codes-IsFresh (after encode c fleet) cs v' ss)
                  (served-not-IsFresh fleet c v s code e decodes),
              rest,
            ))
        | inr (_, e) ↦ rw e rest
      ]
