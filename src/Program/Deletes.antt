-- ===== src/Program/Deletes.antt =====
-- A delete through the whole stack, and the redirect that follows it.
mod Tests
use shortn.Prelude.{
  ℕ, String, is_text, Bool, ◌≡◌, refl, sym, ap, ◌∙◌, inl, inr, none, some, Bool-cases, true, false,
  Option, arith,
}
use shortn.Error.{GoError, errors_is, err_not_found}
use shortn.Act.{Result, ok, err, outcome_fst, outcome_snd, Outcome-cases}
use shortn.Shortener.{LinkStore, Service, IdGenerator}
use shortn.Shortener
use shortn.Resilience.Laws.{Phase}
use shortn.Cache.{key, delete, caching_store}
use shortn.Cache
use shortn.Cache.Coherent.{IsCoherent}
use shortn.Cache.Writes.{delete_outcome, delete-IsCoherent}
use shortn.Api.{Request}
use shortn.Api.Links.{Deps, service_unavailable, missing_or, delete_link, redirect}
use shortn.Program.{Backends, svc, caching}
use shortn.Program.Stack.{StackLaws, stored}
use shortn.Program.Writes.{delete_gone, delete-IsWrite, write-env}
use shortn.Program.Redirect.{IsUp, redirect-answers}

missing_or-204 : (why : String) (e : GoError) → (missing_or why e).status ≡ 204 → ⊥
missing_or-204 why e h = elim (Bool-cases (errors_is e err_not_found)) [
  | inl absent ↦ (let k = rw absent at h in absurd (omega arith))
  | inr other ↦ elim (Bool-cases (service_unavailable e)) [
    | inl busy ↦ (let k = rw (other, busy) at h in absurd (omega arith))
    | inr broken ↦ (let k = rw (other, broken) at h in absurd (omega arith))
  ]
]

-- A delete is answered with 204 only if the service deleted the link.
delete_link-done :
    {W : Type 0} (h : Deps W) (r : Request) (w : W)
    → (delete_link h r w).0.status ≡ 204
    → Shortener.delete h.svc r.code w ≡ (ok tt, (delete_link h r w).1)
unfolding delete_link
delete_link-done h r w gone = elim (Outcome-cases (Shortener.delete h.svc r.code w)) [
  | inl (_, p) ↦ rw p refl
  | inr (e, p) ↦ absurd (missing_or-204 "could not delete link" e (rw p at gone))
]

module _ {W : Type 0} (b : Backends W) (entry : W → String → Option String) (phase : W → Phase)
    (laws : StackLaws b entry phase) where
  abbrev source : W → String → Option String
  source = stored b entry phase laws

  svc_delete :
      (h : Deps W) (gen : IdGenerator W) (code : String) (w : W)
      → h.svc ≡ svc b gen
      → Shortener.delete h.svc code w ≡ delete (caching b) code w
  unfolding Shortener.delete caching_store
  svc_delete h gen code w same = ap (λ (s : Service W). s.store.delete code w) same

  -- Only a code that is text is deleted.
  delete_text :
      (code : String) (w : W) → ((caching b).next.delete code w).0 ≡ ok tt → is_text code ≡ true
  delete_text code w e =
      (delete_gone b entry phase laws code w _ _ e (delete-IsWrite b entry phase laws code w)).1

  module _ (get_up : (k : String) (w : W) → IsUp b phase w → IsUp b phase (b.rdb.get k w).1)
      (count_up : (hit : Bool) (w : W) → IsUp b phase w → IsUp b phase (b.count hit w))
      (dels : (k : String) (w : W) → (b.rdb.del k w).0 ≡ ok tt) where
    -- Over the whole stack, from an agreeing cache: after a delete that is answered with 204 no
    -- row has the code, and a redirect of it right after is answered with 404; if Redis carries
    -- DEL out, and Postgres answers and the breaker is closed after the delete.
    pub delete_link-redirect :
        (h : Deps W) (gen : IdGenerator W) (r follow : Request) (w : W)
        → h.svc ≡ svc b gen
        → IsCoherent entry source w
        → (delete_link h r w).0.status ≡ 204
        → IsUp b phase (delete_link h r w).1
        → follow.code ≡ r.code
        → (source (delete_link h r w).1 r.code ≡ none)
          × ((redirect h follow (delete_link h r w).1).0.status ≡ 404)
    delete_link-redirect h gen r follow w same c gone up asks =
        let u = (delete_link h r w).1 in
        let p = sym (svc_delete h gen r.code w same) ∙ delete_link-done h r w gone in
        let below = sym (delete_outcome (caching b) r.code w).0 ∙ outcome_fst p in
        let (there, _, coherent) =
          delete-IsCoherent (caching b) entry source (write-env b entry phase laws) r.code w c below
            (dels (key r.code) _) in
        let at = outcome_snd p in
        let text = delete_text r.code w below in
        let missing : source u r.code ≡ none = ap (λ (v : W). source v r.code) (sym at) ∙ there in
        let agrees : IsCoherent entry source u = rw at at coherent in
        (
          missing,
          elim (redirect-answers b entry phase laws get_up count_up h gen follow u same agrees up
              (ap is_text asks ∙ text)) [
                | inl (url, held, _, _) ↦
                    absurd (let k = sym held ∙ ap (source u) asks ∙ missing in cc)
                | inr (_, status) ↦ status
              ],
        )
