-- ===== src/Api/Paging.antt =====
-- A page of the list of links, from the query to the rows.
use shortn.Prelude.{
  ℕ, ◌≤◌, ◌≡◌, refl, ap, inl, inr, ◌∙◌, ◌||◌, [], map, arith, Bool-cases, if◌then◌else◌,
}
use shortn.Prelude.Int.{ℤ, pos, negsuc, ltb_ℤ}
use shortn.Act.{ok}
use shortn.Shortener.{Link, LinkStore, Service}
use shortn.Shortener
use shortn.Store.{Db, statement, take, drop, newest_first, select_page}
use shortn.Store
use shortn.Store.Analytics.{postgres}
use shortn.Store.Order.{
  IsNewestFirst, newest_first-IsNewestFirst, drop-IsNewestFirst, take-IsNewestFirst,
}
use shortn.Api.{Request, write_json, links_body}
use shortn.Api.Links.{
  Deps, query_int, default_list_limit, max_list_limit, page_limit, page_offset, summary, listed,
  list_links,
}

module _ {W : Type 0} (h : Deps W) (r : Request) where
  limit_within :
      (n : ℤ)
      → (m : ℕ) × ((if ltb_ℤ n (pos 1) || ltb_ℤ max_list_limit n then default_list_limit else n)
          ≡ pos m)
        × (1 ≤ m)
        × (m ≤ 100)
  limit_within (pos m) = elim (Bool-cases (ltb_ℤ (pos m) (pos 1) || ltb_ℤ max_list_limit (pos m))) [
    | inl out ↦ rw out (50, refl, omega arith, omega arith)
    | inr within ↦ rw within (m, refl, ground arith, ground arith)
  ]
  limit_within (negsuc m) = (50, ground arith, omega arith, omega arith)

  page_limit-bounds : (m : ℕ) × (page_limit h r ≡ pos m) × (1 ≤ m) × (m ≤ 100)
  unfolding page_limit
  page_limit-bounds = limit_within (query_int h r.limit default_list_limit)

  offset_within : (n : ℤ) → (m : ℕ) × ((if ltb_ℤ n (pos 0) then pos 0 else n) ≡ pos m)
  offset_within (pos m) = (m, ground arith)
  offset_within (negsuc m) = (0, ground arith)

  page_offset-bounds : (m : ℕ) × (page_offset h r ≡ pos m)
  unfolding page_offset
  page_offset-bounds = offset_within (query_int h r.offset (pos 0))

list-postgres :
    (svc : Service Db) (n m : ℕ) (db : Db)
    → svc.store ≡ postgres
    → db.trips ≡ []
    → Shortener.list svc (pos n) (pos m) db
      ≡ (ok (take n (drop m (newest_first db.tables.links))), record db { trips = [] })
unfolding Shortener.list postgres Store.list statement select_page
list-postgres svc n m db same quiet =
    ap (λ (st : LinkStore Db). st.list (pos n) (pos m) db) same ∙ rw quiet refl

-- Over Postgres while it answers, whatever limit and offset the query asks for, the list is
-- answered with 200 and one page of the links in order: from some offset, at most some limit
-- from 1 to 100, none newer than one before it.
pub list_links-page :
    (h : Deps Db) (r : Request) (db : Db)
    → h.svc.store ≡ postgres
    → db.trips ≡ []
    → (limit offset : ℕ) × (1 ≤ limit)
      × (limit ≤ 100)
      × ((list_links h r db).0
          ≡ write_json 200 (
              links_body
                (map (summary h r) (take limit (drop offset (newest_first db.tables.links))))))
      × IsNewestFirst (take limit (drop offset (newest_first db.tables.links)))
unfolding list_links listed
list_links-page h r db same quiet =
    let (n, limit_n, some_n, few) = page_limit-bounds h r in
    let (m, offset_m) = page_offset-bounds h r in
    (
      n,
      m,
      some_n,
      few,
      rw (limit_n, offset_m, list-postgres h.svc n m db same quiet) refl,
      take-IsNewestFirst n _ (drop-IsNewestFirst m _ (newest_first-IsNewestFirst db.tables.links)),
    )
