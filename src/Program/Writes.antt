-- ===== src/Program/Writes.antt =====
-- Creates and deletes through the breaker and Postgres: the stack below the cache is what the cache
-- relies on when it writes.
use shortn.Prelude.{
  String, is_text, ◌≡◌, ◌≢◌, refl, sym, ap, ◌∙◌, inl, inr, true, Option, none, some, List, arith,
}
use text.Mathlib.TextPositions.{eq_refl}
use shortn.Error.{GoError, err_code_exists, errors_is}
use shortn.Act.{outcome_fst, outcome_snd, Result, ok, err}
use shortn.Redis.{Fades}
use shortn.Shortener.{Link, draft}
use shortn.Store.{Db, NetError, broken, timed_out, net_error, find_link, create, delete}
use shortn.Store.Analytics.{postgres}
use shortn.Store.Links.{find_link-gone, code-text}
use shortn.Store.Outcomes.{
  IsInsert, inserted, taken, unsure, create-IsInsert, IsRemoval, removed, delete-IsRemoval,
  find_link-rest_of, find_link-row_of, refused, url_of,
}
use shortn.Resilience.{settings, resilient_store}
use shortn.Resilience.Laws.{Phase}
use shortn.Resilience.Writes.{IsWrite, shed, done, masked, writes-IsWrite}
use shortn.Cache.Coherent.{IsQuiet}
use shortn.Cache.Writes.{WriteEnv}
use shortn.Program.{Backends, st, resilient, caching}
use shortn.Program.Lookup.{stored_in}
use shortn.Program.Stack.{StackLaws, stored, caching-env}

-- The URL of a code among some rows.
abbrev url_in : List Link → String → Option String
url_in rows code = url_of (find_link code rows)

insert_others :
    (link : Link) (db : Db) (r : Result Link) (rows : List Link) (c : String)
    → c ≢ link.code
    → IsInsert link db r rows
    → url_in rows c ≡ stored_in db c
insert_others link db r rows c other (inserted text absent p q) =
    rw q (ap url_of (find_link-row_of link db c other))
insert_others link db r rows c other (taken p q) = rw q refl
insert_others link db r rows c other (refused odd p q) = rw q refl
insert_others link db r rows c other (unsure n p (inl q)) = rw q refl
insert_others link db r rows c other (unsure n p (inr q)) =
    rw q (ap url_of (find_link-row_of link db c other))

insert_made :
    (link made : Link) (db : Db) (r : Result Link) (rows : List Link)
    → r ≡ ok made
    → IsInsert link db r rows
    → (url_in rows link.code ≡ some link.long_url)
      × (made.code ≡ link.code)
      × (made.long_url ≡ link.long_url)
      × (is_text link.code ≡ true)
unfolding find_link
insert_made link made db r rows e (inserted text absent p q) =
    let same = sym e ∙ p in rw (q, eq_refl link.code) (refl, cc, cc, code-text link text)
insert_made link made db r rows e (taken p q) = absurd (let k = sym e ∙ p in cc)
insert_made link made db r rows e (refused odd p q) = absurd (let k = sym e ∙ p in cc)
insert_made link made db r rows e (unsure n p q) = absurd (let k = sym e ∙ p in cc)

net_error-taken : (n : NetError) → errors_is (net_error n) err_code_exists ≢ true
net_error-taken (broken text) h = cc
net_error-taken timed_out h = cc

-- A code that is taken changes nothing.
insert_taken :
    (link : Link) (db : Db) (r : Result Link) (rows : List Link) (e : GoError) (c : String)
    → r ≡ err e
    → errors_is e err_code_exists ≡ true
    → IsInsert link db r rows
    → url_in rows c ≡ stored_in db c
insert_taken link db r rows e c p h (inserted text absent q f) = absurd (let k = sym p ∙ q in cc)
insert_taken link db r rows e c p h (taken q f) = rw f refl
insert_taken link db r rows e c p h (refused odd q f) = rw f refl
insert_taken link db r rows e c p h (unsure n q f) =
    absurd (let k = sym p ∙ q in net_error-taken n (ground (arith, k, h)))

removal_others :
    (code : String) (db : Db) (r : Result (Unit {0})) (rows : List Link) (c : String)
    → c ≢ code
    → IsRemoval code db r rows
    → url_in rows c ≡ stored_in db c
removal_others code db r rows c other (removed text q) =
    rw q (ap url_of (find_link-rest_of code c db.tables.links other))
removal_others code db r rows c other (refused odd p q) = rw q refl
removal_others code db r rows c other (unsure n p q) = rw q refl

removal_gone :
    (code : String) (db : Db) (r : Result (Unit {0})) (rows : List Link)
    → r ≡ ok tt
    → IsRemoval code db r rows
    → (url_in rows code ≡ none) × (is_text code ≡ true)
removal_gone code db r rows e (removed text q) =
    (rw q (ap url_of (find_link-gone code db.tables.links)), text)
removal_gone code db r rows e (refused odd p q) = absurd (let k = sym e ∙ p in cc)
removal_gone code db r rows e (unsure n p q) = absurd (let k = sym e ∙ p in cc)

module _ {W : Type 0} (b : Backends W) (entry : W → String → Option String) (phase : W → Phase)
    (laws : StackLaws b entry phase) where
  abbrev source : W → String → Option String
  source = stored b entry phase laws

  abbrev Quiet : W → W → Type 0
  Quiet = IsQuiet entry source

  -- What the breaker changes behind a write touches neither rows nor entries.
  behind :
      (d : Db) (w v : W) (c : String)
      → Quiet (b.put_db d w) v
      → source v c ≡ url_in d.tables.links c
  behind d w v c q = q.kept c ∙ ap (λ (x : Db). stored_in x c) (laws.db_put d w)

  behind-Fades : (d : Db) (w v : W) → Quiet (b.put_db d w) v → Fades entry w v
  behind-Fades d w v q k = ground (arith, q.faded k, laws.entry_put d w k)

  pub create-IsWrite :
      (link : Link) (w : W)
      → IsWrite Quiet
          ((st b).create link)
          w
          ((resilient_store (resilient b)).create link w).0
          ((resilient_store (resilient b)).create link w).1
  unfolding resilient_store
  create-IsWrite link w =
      (writes-IsWrite Quiet (resilient b) phase (laws.breaker settings) link "" w).0

  pub delete-IsWrite :
      (code : String) (w : W)
      → IsWrite Quiet
          ((st b).delete code)
          w
          ((resilient_store (resilient b)).delete code w).0
          ((resilient_store (resilient b)).delete code w).1
  unfolding resilient_store
  delete-IsWrite code w =
      (writes-IsWrite Quiet (resilient b) phase (laws.breaker settings) (draft code "") code w).1

  create_entry :
      (link : Link) (w : W) (r : Result Link) (v : W)
      → IsWrite Quiet ((st b).create link) w r v
      → Fades entry w v
  unfolding postgres
  create_entry link w r v (shed p q) = q.faded
  create_entry link w r v (done p own q) = behind-Fades (create link (b.db w)).1 w v q
  create_entry link w r v (masked e p own f q) = behind-Fades (create link (b.db w)).1 w v q

  create_others :
      (link : Link) (w : W) (r : Result Link) (v : W) (c : String)
      → c ≢ link.code
      → IsWrite Quiet ((st b).create link) w r v
      → source v c ≡ source w c
  unfolding postgres
  create_others link w r v c other (shed p q) = q.kept c
  create_others link w r v c other (done p own q) =
      behind (create link (b.db w)).1 w v c q
      ∙ insert_others link (b.db w) _ _ c other (create-IsInsert link (b.db w))
  create_others link w r v c other (masked e p own f q) =
      behind (create link (b.db w)).1 w v c q
      ∙ insert_others link (b.db w) _ _ c other (create-IsInsert link (b.db w))

  pub create_made :
      (link made : Link) (w : W) (r : Result Link) (v : W)
      → r ≡ ok made
      → IsWrite Quiet ((st b).create link) w r v
      → (source v link.code ≡ some link.long_url)
        × (made.code ≡ link.code)
        × (made.long_url ≡ link.long_url)
        × (is_text link.code ≡ true)
  unfolding postgres
  create_made link made w r v e (shed p q) = absurd (let k = sym e ∙ p in cc)
  create_made link made w r v e (done p own q) =
      let (there, same, url, text) =
        insert_made link made (b.db w) _ _ (sym p ∙ e) (create-IsInsert link (b.db w)) in
      (behind (create link (b.db w)).1 w v link.code q ∙ there, same, url, text)
  create_made link made w r v e (masked x p own f q) = absurd (let k = sym e ∙ f in cc)

  -- A create that finds its code taken writes nothing.
  pub create_taken :
      (link : Link) (w : W) (e : GoError) (r : Result Link) (v : W)
      → r ≡ err e
      → errors_is e err_code_exists ≡ true
      → IsWrite Quiet ((st b).create link) w r v
      → Quiet w v
  unfolding postgres
  create_taken link w e r v p h (shed f q) = q
  create_taken link w e r v p h (done f own q) = record {
    kept = λ c.
        behind (create link (b.db w)).1 w v c q
        ∙ insert_taken link (b.db w) _ _ e c (sym f ∙ p) h (create-IsInsert link (b.db w));
    faded = behind-Fades (create link (b.db w)).1 w v q;
  }
  create_taken link w e r v p h (masked x f own g q) =
      absurd (let k = sym p ∙ g in ground (arith, k, h))

  delete_entry :
      (code : String) (w : W) (r : Result (Unit {0})) (v : W)
      → IsWrite Quiet ((st b).delete code) w r v
      → Fades entry w v
  unfolding postgres
  delete_entry code w r v (shed p q) = q.faded
  delete_entry code w r v (done p own q) = behind-Fades (delete code (b.db w)).1 w v q
  delete_entry code w r v (masked e p own f q) = behind-Fades (delete code (b.db w)).1 w v q

  delete_others :
      (code : String) (w : W) (r : Result (Unit {0})) (v : W) (c : String)
      → c ≢ code
      → IsWrite Quiet ((st b).delete code) w r v
      → source v c ≡ source w c
  unfolding postgres
  delete_others code w r v c other (shed p q) = q.kept c
  delete_others code w r v c other (done p own q) =
      behind (delete code (b.db w)).1 w v c q
      ∙ removal_others code (b.db w) _ _ c other (delete-IsRemoval code (b.db w))
  delete_others code w r v c other (masked e p own f q) =
      behind (delete code (b.db w)).1 w v c q
      ∙ removal_others code (b.db w) _ _ c other (delete-IsRemoval code (b.db w))

  pub delete_gone :
      (code : String) (w : W) (r : Result (Unit {0})) (v : W)
      → r ≡ ok tt
      → IsWrite Quiet ((st b).delete code) w r v
      → (source v code ≡ none) × (is_text code ≡ true)
  unfolding postgres
  delete_gone code w r v e (shed p q) = absurd (let k = sym e ∙ p in cc)
  delete_gone code w r v e (done p own q) =
      let (gone, text) =
        removal_gone code (b.db w) _ _ (sym p ∙ e) (delete-IsRemoval code (b.db w)) in
      (behind (delete code (b.db w)).1 w v code q ∙ gone, text)
  delete_gone code w r v e (masked x p own f q) = absurd (let k = sym e ∙ f in cc)

  pub write-env : WriteEnv (caching b) entry source
  write-env = record {
    reads = caching-env b entry phase laws;
    delete_entry = λ code w. delete_entry code w _ _ (delete-IsWrite code w);
    delete_gone = λ code {w} {w'} e.
        ap (λ (v : W). source v code) (sym (outcome_snd e))
        ∙ (delete_gone code w _ _ (outcome_fst e) (delete-IsWrite code w)).0;
    delete_others = λ code c w other. delete_others code w _ _ c other (delete-IsWrite code w);
    create_entry = λ link w. create_entry link w _ _ (create-IsWrite link w);
    create_stored = λ link {made} {w} {w'} e.
        let (there, _, _, _) =
          create_made link made w _ _ (outcome_fst e) (create-IsWrite link w) in
        ap (λ (v : W). source v link.code) (sym (outcome_snd e)) ∙ there;
    create_others = λ link c w other. create_others link w _ _ c other (create-IsWrite link w);
  }
