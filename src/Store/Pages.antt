-- ===== src/Store/Pages.antt =====
-- Reading all pages of List, one after the other.
use mathlib.Core.List.{Perm}
use mathlib.Core.List.Perm
use shortn.Prelude.{
  ℕ, zero, suc, ◌+◌, ◌*◌, ◌≤◌, ◌≡◌, refl, sym, ap, ◌∙◌, inl, inr, List, [], ◌∷◌, ◌++◌, length,
  arith, Bool-cases,
}
use shortn.Prelude.Int.{pos}
use shortn.Act.{ok, Act, pure, ◌>>=◌}
use shortn.Shortener.{Link}
use shortn.Store.{Db, statement, is_newer, place, newest_first, select_page, take, drop, list}
use shortn.Store.Order.{IsNewestFirst, newest_first-IsNewestFirst}

-- A reader that asks for page after page of so many rows, from an offset on.
abbrev pub read_pages : ℕ → ℕ → ℕ → Act Db (List Link)
read_pages limit zero offset = pure []
read_pages limit (suc pages) offset =
    let rest = read_pages limit pages (offset + limit) in
    list (pos limit) (pos offset) >>= λ page. rest >>= λ more. pure (page ++ more)

place-Perm : (l : Link) (ls : List Link) → Perm (place l ls) (l ∷ ls)
unfolding place
place-Perm l [] = Perm.rfl
place-Perm l (m ∷ ms) = elim (Bool-cases (is_newer m l)) [
  | inl newer ↦ rw newer (Perm.trans (Perm.cons m (place-Perm l ms)) (Perm.swap l m ms))
  | inr older ↦ rw older Perm.rfl
]

-- ORDER BY moves rows, and neither drops nor repeats one.
newest_first-Perm : (ls : List Link) → Perm (newest_first ls) ls
unfolding newest_first
newest_first-Perm [] = Perm.rfl
newest_first-Perm (l ∷ ls) =
    Perm.trans (place-Perm l (newest_first ls)) (Perm.cons l (newest_first-Perm ls))

place-length : (l : Link) (ls : List Link) → length (place l ls) ≡ suc (length ls)
unfolding place
place-length l [] = refl
place-length l (m ∷ ms) = elim (Bool-cases (is_newer m l)) [
  | inl newer ↦ rw newer (ap suc (place-length l ms))
  | inr older ↦ rw older refl
]

newest_first-length : (ls : List Link) → length (newest_first ls) ≡ length ls
unfolding newest_first
newest_first-length [] = refl
newest_first-length (l ∷ ls) = place-length l (newest_first ls) ∙ ap suc (newest_first-length ls)

module _ {A : Type 0} where
  take-append-drop : (n : ℕ) (xs : List A) → take n xs ++ drop n xs ≡ xs
  take-append-drop zero xs = refl
  take-append-drop (suc n) [] = refl
  take-append-drop (suc n) (x ∷ xs) = ap (◌∷◌ x) (take-append-drop n xs)

  drop-nil : (n : ℕ) → drop {A = A} n [] ≡ []
  drop-nil zero = refl
  drop-nil (suc n) = refl

  drop-drop : (m n : ℕ) (xs : List A) → drop n (drop m xs) ≡ drop (m + n) xs
  drop-drop zero n xs = ap (λ k. drop k xs) (omega arith)
  drop-drop (suc m) n [] = drop-nil n ∙ sym (drop-nil (suc m + n))
  drop-drop (suc m) n (x ∷ xs) =
      drop-drop m n xs
      ∙ (let same : suc (m + n) ≡ suc m + n = omega arith in ap (λ k. drop k (x ∷ xs)) same)

  drop-all : (n : ℕ) (xs : List A) → length xs ≤ n → drop n xs ≡ []
  drop-all zero [] h = refl
  drop-all zero (x ∷ xs) h = absurd (omega arith)
  drop-all (suc n) [] h = refl
  drop-all (suc n) (x ∷ xs) h = drop-all n xs (omega arith)

list_answered :
    (limit offset : ℕ) (db : Db)
    → db.trips ≡ []
    → list (pos limit) (pos offset) db
      ≡ (ok (take limit (drop offset (newest_first db.tables.links))), record db { trips = [] })
unfolding list statement select_page
list_answered limit offset db quiet = rw quiet refl

-- The pages that are read are the rest of the rows, in order.
read_pages-drop :
    (limit pages offset : ℕ) (db : Db)
    → db.trips ≡ []
    → length db.tables.links ≤ offset + pages * limit
    → read_pages limit pages offset db
      ≡ (ok (drop offset (newest_first db.tables.links)), record db { trips = [] })
read_pages-drop limit zero offset db quiet enough =
    let short : length (newest_first db.tables.links) ≤ offset =
      omega (arith, enough, newest_first-length db.tables.links) in
    let none_left = sym (drop-all offset (newest_first db.tables.links) short) in
    λ i. (ok (none_left i), record db { trips = quiet i })
read_pages-drop limit (suc pages) offset db quiet enough =
    let rows = newest_first db.tables.links in
    let rest =
      read_pages-drop limit pages (offset + limit) (record db { trips = [] }) refl
        (omega (arith, enough)) in
    let whole : take limit (drop offset rows) ++ drop (offset + limit) rows ≡ drop offset rows =
      ap (λ (xs : List Link). take limit (drop offset rows) ++ xs)
        (sym (drop-drop offset limit rows))
      ∙ take-append-drop limit (drop offset rows) in
    rw (list_answered limit offset db quiet, rest, whole) refl

-- While the server answers, reading List page after page of one limit, enough of them to hold
-- all rows, gives every stored link exactly once, none newer than one before it.
pub read_pages-all :
    (limit pages : ℕ) (db : Db)
    → db.trips ≡ []
    → length db.tables.links ≤ pages * limit
    → (all : List Link) × (read_pages limit pages 0 db ≡ (ok all, db))
      × Perm all db.tables.links
      × IsNewestFirst all
read_pages-all limit pages db quiet enough =
    let rows = newest_first db.tables.links in
    (
      rows,
      read_pages-drop limit pages 0 db quiet (omega (arith, enough))
          ∙ (let back = sym quiet in λ i. (ok rows, record db { trips = back i })),
      newest_first-Perm db.tables.links,
      newest_first-IsNewestFirst db.tables.links,
    )
