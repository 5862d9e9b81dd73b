-- ===== src/Program/Main/Ends.antt =====
-- How main ends: what has been checked when the servers start, and what is closed.
use shortn.Prelude.{
  ℕ, ◌%◌, ◌^◌, ◌≤◌, ◌≡◌, refl, ap, ◌∙◌, inl, inr, false, Option, none, some, List, [], ◌∷◌, arith,
}
use shortn.Prelude.Int.{pos, ltb_ℤ}
use shortn.Error.{GoError}
use shortn.Act.{Result, ok, err, Outcome-cases}
use shortn.Config.{Config, load}
use shortn.Observability.{shutdown}
use shortn.Events.{close}
use shortn.Idgen.Snowflake.{Generator, new_generator}
use shortn.Idgen.Lease.{WorkerLease, release}
use shortn.Process.{Process, run_deferred, began, finish}
use shortn.Program.Main.{Libraries, App, choose_worker_id, open_pool, open_redis, boot, serve, main}
use shortn.Program.Main.Start.{
  open_pool-deferred, open_redis-deferred, IsChosen, by_hand, by_lease, choose_worker_id-IsChosen,
  IsWired, wire-IsWired,
}

module _ {W : Type 0} (lib : Libraries W) where
  -- What is closed when main returns, in order.
  abbrev released : Option WorkerLease → W → W
  released none w = w
  released (some l) w = (release lib.run_release l w).1

  abbrev pub closed_down : App W → W → W
  closed_down app w =
      (shutdown lib.otel
        (lib.close_pool (lib.close_redis (released app.lease (close app.publisher w))))).1

  abbrev pub AgreesWith : Config → ℕ → Option WorkerLease → Type 0
  AgreesWith cfg wid none = lib.parse_uint cfg.worker_id ≡ ok wid
  AgreesWith cfg wid (some l) = (cfg.worker_id ≡ "") × (l.worker_id ≡ wid)

  -- What holds when the servers start.
  pub record IsRunning (cfg : Config) (app : App W) (p : Process W) : Type 0 where
    pub wid : ℕ
    pub bounded : wid ≤ 1023
    pub agrees : AgreesWith cfg wid app.lease
    pub fresh : app.gen ≡ record { worker_id = wid; sequence = 0; last_ms = pos 0 }
    pub burst : ltb_ℤ app.burst (pos 1) ≡ false
    pub rps : ltb_ℤ app.rps (pos 1) ≡ false
    pub config : app.cfg ≡ cfg
    pub closes : (w : W) → run_deferred p.deferred w ≡ closed_down app w

  new_generator-fresh :
      (wid : ℕ) (g : Generator)
      → wid ≤ 1023
      → new_generator (wid % 2 ^ 16) ≡ ok g
      → g ≡ record { worker_id = wid; sequence = 0; last_ms = pos 0 }
  unfolding new_generator
  new_generator-fresh wid g small e = ground (arith, e, small)

  wired-IsRunning :
      (cfg : Config) (p q : Process W) (wid : ℕ) (lease : Option WorkerLease) (app : App W)
      (r : Process W)
      → p.deferred ≡ lib.close_redis ∷ lib.close_pool ∷ (λ w. (shutdown lib.otel w).1) ∷ []
      → IsChosen lib cfg p q wid lease
      → IsWired lib cfg wid lease q app r
      → IsRunning cfg app r
  wired-IsRunning cfg p q wid lease app r d (by_hand a b small same) k = record {
    wid = wid;
    bounded = small;
    agrees = rw (k.same, a) b;
    fresh = new_generator-fresh wid app.gen small k.generator;
    burst = k.burst;
    rps = k.rps;
    config = k.config;
    closes = λ w. rw (k.deferred, same, d, k.same, a) refl;
  }
  wired-IsRunning cfg p q wid lease app r d (by_lease l a b c small same) k = record {
    wid = wid;
    bounded = small;
    agrees = rw (k.same, a) (b, c);
    fresh = new_generator-fresh wid app.gen small k.generator;
    burst = k.burst;
    rps = k.rps;
    config = k.config;
    closes = λ w. rw (k.deferred, same, d, k.same, a) refl;
  }

  boot-IsRunning :
      (cfg : Config) (w : W) (app : App W) (p : Process W)
      → boot lib cfg (began w) ≡ (ok app, p)
      → IsRunning cfg app p
  unfolding boot
  boot-IsRunning cfg w app p e =
      let p1 = (open_pool lib cfg (began w)).1 in
      let p2 = (open_redis lib cfg p1).1 in
      let p3 = (choose_worker_id lib cfg p2).1 in
      elim (Outcome-cases (open_pool lib cfg (began w))) [
        | inr (x, r) ↦ absurd (let k = rw r at e in cc)
        | inl (a, r1) ↦
            let e1 = rw r1 at e in
            elim (Outcome-cases (open_redis lib cfg p1)) [
              | inr (x, r) ↦ absurd (let k = rw r at e1 in cc)
              | inl (b, r2) ↦
                  let e2 = rw r2 at e1 in
                  elim (Outcome-cases (choose_worker_id lib cfg p2)) [
                    | inr (x, r) ↦ absurd (let k = rw r at e2 in cc)
                    | inl ((wid, lease), r3) ↦
                        wired-IsRunning cfg p2 p3 wid lease app p
                          (open_redis-deferred lib cfg p1 p2 r2
                            ∙ ap (λ (fs : List (W → W)). lib.close_redis ∷ fs)
                                (open_pool-deferred lib cfg (began w) p1 r1))
                          (choose_worker_id-IsChosen lib cfg p2 p3 wid lease r3)
                          (wire-IsWired lib cfg wid lease p3 p app (rw r3 at e2))
                  ]
            ]
      ]

  -- The exit code and the world when the servers have ended.
  abbrev pub ended : App W → Result (Unit {0}) × W → ℕ × W
  ended app (ok _, u) = (0, closed_down app u)
  ended app (err e, u) = (1, u)

  pub data Ends (cfg : Config) (w : W) (out : ℕ × W) : Type 0 where
    refused :
        (e : GoError) (p : Process W)
        → boot lib cfg (began w) ≡ (err e, p)
        → out ≡ (1, p.world)
        → Ends cfg w out
    served :
        (app : App W) (p : Process W)
        → boot lib cfg (began w) ≡ (ok app, p)
        → IsRunning cfg app p
        → out ≡ ended app (serve lib app p.world)
        → Ends cfg w out

  main-booted :
      (cfg : Config) (w : W) (app : App W) (p : Process W)
      → load lib.getenv lib.hostname ≡ ok cfg
      → boot lib cfg (began w) ≡ (ok app, p)
      → IsRunning cfg app p
      → main lib w ≡ ended app (serve lib app p.world)
  unfolding main finish
  main-booted cfg w app p c e r = elim (Outcome-cases (serve lib app p.world)) [
    | inl (x, q) ↦ rw (c, e, q) (ap (λ (u : W). (0, u)) (r.closes _))
    | inr (x, q) ↦ rw (c, e, q) refl
  ]

  -- Every run of main is refused at the start with exit code 1 and nothing closed, or comes to
  -- serve with a fresh generator whose worker id is WORKER_ID or that of a lease and at most
  -- 1023, and with positive limits; it then exits with 0 after closing the publisher, giving the
  -- lease back, and closing Redis, the pool and telemetry, in this order, or with 1 and nothing
  -- closed if a server or its shutdown fails.
  pub main-Ends :
      (cfg : Config) (w : W) → load lib.getenv lib.hostname ≡ ok cfg → Ends cfg w (main lib w)
  unfolding main finish
  main-Ends cfg w c =
      let p = (boot lib cfg (began w)).1 in
      elim (Outcome-cases (boot lib cfg (began w))) [
        | inl (app, e) ↦
            let r = boot-IsRunning cfg w app p e in served app p e r (main-booted cfg w app p c e r)
        | inr (x, e) ↦ refused x p e (rw (c, e) refl)
      ]
