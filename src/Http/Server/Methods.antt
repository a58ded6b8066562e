-- ===== src/Http/Server/Methods.antt =====
-- The routes that change state are those of POST, PATCH and DELETE.
use starfighter_workflow.Common.{String, true, not, ◌≡◌, refl, ap, ◌∙◌, arith, All, All-Memᴰ, ◌▸◌}
use starfighter_workflow.Auth.{Bcrypt}
use starfighter_workflow.Web.{Site}
use starfighter_workflow.Http.{Method, get_method, head, post, patch, delete_method, Reply, is_read}
use starfighter_workflow.Http.Routes.{changes_state}
use starfighter_workflow.Http.Mux.{Incoming, Decoders, Entry, entries, match_method}
use starfighter_workflow.Http.Mux.Unique.{method-matches}
use starfighter_workflow.Http.Server.Cases.{segments_of, Taken}

module _ (bcrypt : Bcrypt) (d : Decoders) where
  -- the check of the origin stands before exactly the routes of the methods that are no reads
  abbrev IsMarked : Entry → Type 0
  IsMarked e =
      (id : String) (q : Incoming)
      → changes_state bcrypt d.host_of (e.route id q) ≡ not (is_read e.method)

  marked : All IsMarked (entries d)
  unfolding entries changes_state is_read
  marked =
      (λ id q. refl)
      ▸ (λ id q. refl)
      ▸ (λ id q. refl)
      ▸ (λ id q. refl)
      ▸ (λ id q. refl)
      ▸ (λ id q. refl)
      ▸ (λ id q. refl)
      ▸ (λ id q. refl)
      ▸ (λ id q. refl)
      ▸ (λ id q. refl)
      ▸ (λ id q. refl)
      ▸ (λ id q. refl)
      ▸ (λ id q. refl)
      ▸ (λ id q. refl)
      ▸ (λ id q. refl)
      ▸ (λ id q. refl)
      ▸ (λ id q. refl)
      ▸ (λ id q. refl)
      ▸ (λ id q. refl)
      ▸ (λ id q. refl)
      ▸ tt

read-method : (a m : Method) → match_method a m ≡ true → is_read a ≡ is_read m
unfolding match_method is_read
read-method get_method get_method h = refl
read-method get_method head h = refl
read-method post post h = refl
read-method patch patch h = refl
read-method delete_method delete_method h = refl
read-method a m h = absurd (ground arith)

module _ (bcrypt : Bcrypt) (d : Decoders) (site_for : Method → Site Reply) (q : Incoming) where
  pub taken-changes_state :
      (t : Taken bcrypt d site_for q)
      → changes_state bcrypt d.host_of (t.entry.route t.id q) ≡ not (is_read q.request.method)
  taken-changes_state t =
      All-Memᴰ (IsMarked bcrypt d) (entries d) (marked bcrypt d) t.registered t.id q
      ∙ ap not (
          read-method t.entry.method q.request.method
            (method-matches q.request.method (segments_of d q) t.entry t.matches))
