-- ===== src/Program/Deletes/Tests.antt =====
-- The link of the stack's tests is deleted, and followed.
use shortn.Prelude.{is_text, ◌≡◌, refl, none}
use shortn.Store
use shortn.Store.{statement, delete_link, find_link}
use shortn.Store.Analytics.{postgres}
use shortn.Resilience
use shortn.Resilience.{resilient_store, execute, is_successful}
use shortn.Shortener
use shortn.Cache
use shortn.Cache.{caching_store, invalidate}
use shortn.Api.Links
use shortn.Api.Links.{redirect}
use shortn.Program.Lookup.{stored_in}
use shortn.Program.Redirect.{IsUp}
use shortn.Program.Deletes.{delete_link-redirect}
use shortn.Program.Tests.{
  World, backends, phase, cached, laws, start, coherent, gen, handler, follow, get-IsUp,
}

abbrev gone : World
gone = (Links.delete_link handler follow start).1

up : IsUp backends phase gone
unfolding Links.delete_link Shortener.delete caching_store Cache.delete invalidate resilient_store
    Resilience.delete execute is_successful postgres Store.delete is_text statement delete_link
    find_link
up = record { failures = 0; is_closed = refl; answers = refl }

answer : (Links.delete_link handler follow start).0.status ≡ 204
unfolding Links.delete_link Shortener.delete caching_store Cache.delete invalidate resilient_store
    Resilience.delete execute is_successful postgres Store.delete is_text statement delete_link
    find_link
answer = refl

delete_link-redirect_example :
    (stored_in gone.db "a" ≡ none) × ((redirect handler follow gone).0.status ≡ 404)
delete_link-redirect_example =
    delete_link-redirect backends cached phase laws get-IsUp (λ hit w up. up) (λ k w. refl) handler
      gen follow follow start refl coherent answer up refl
