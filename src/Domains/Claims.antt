-- ===== src/Domains/Claims.antt =====
-- A domain belongs to one project at a time.
use code2cloud.Prelude.{
  String, ◌≡◌, refl, ap, true, false, not, [], ◌∷◌, ◌++◌, inl, inr, In, filter, ◌==◌, Option-cases,
}
use code2cloud.Schema.{Domain, Project}
use code2cloud.Prisma.{Prisma}
use code2cloud.World.{World, Outcome, done, fail, require, ◌>>=◌}
use code2cloud.World.Laws.{require_rule}
use code2cloud.Deployments.{is_project_of, find_project}
use code2cloud.Domains.{is_named, is_domain_of, new_domain, create_domain, remove_domain}

abbrev pub ClaimOutcome :
    ⦃prisma : Prisma⦄ → String → String → String → World → Outcome Domain → Type 0
ClaimOutcome user_id project_id name w (done d w') =
    (p : Project) × In p w.db.projects
    × (is_project_of user_id project_id p ≡ true)
    × ((x : Domain) → In x w.db.domains → is_named name x ≡ false)
    × (d ≡ new_domain w project_id name)
    × (w' ≡ record w { db = record w.db { domains = w.db.domains ++ d ∷ [] } })
ClaimOutcome user_id project_id name w (fail e w') = w' ≡ w

abbrev pub ReleaseOutcome : String → String → World → Outcome Domain → Type 0
ReleaseOutcome user_id id w (done d w') =
    In d w.db.domains
    × (is_domain_of w.db user_id id d ≡ true)
    × (w' ≡ record w {
      db = record w.db { domains = filter (λ (x : Domain). not (x.id == id)) w.db.domains };
    })
ReleaseOutcome user_id id w (fail e w') = w' ≡ w

module _ ⦃prisma : Prisma⦄ (user_id : String) (w : World) where
  claim_found :
      (project_id name : String) (p : Project)
      → In p w.db.projects
      → is_project_of user_id project_id p ≡ true
      → find_project user_id project_id w ≡ done p w
      → ClaimOutcome user_id project_id name w (create_domain user_id project_id name w)
  unfolding create_domain
  claim_found project_id name p member owned found =
      elim (Option-cases (prisma.find_first (is_named name) w.db.domains)) [
        | inr (x, taken) ↦ rw (found, ◌>>=◌) (rw taken refl)
        | inl free ↦
            rw (found, ◌>>=◌)
              (rw (free, prisma.create_lem (new_domain w project_id name ∷ []) w.db.domains)
                (p, member, owned, λ x here. prisma.find_first_none _ _ x free here, refl, refl))
      ]

  -- A domain is added only to a project of the user and only under a name that no domain has, and
  -- nothing else is written; refused, nothing is.
  pub create_domain_lem :
      (project_id name : String)
      → ClaimOutcome user_id project_id name w (create_domain user_id project_id name w)
  unfolding create_domain find_project
  create_domain_lem project_id name =
      elim (Option-cases (prisma.find_first (is_project_of user_id project_id) w.db.projects)) [
        | inl missing ↦ rw (missing, ◌>>=◌, require) refl
        | inr (p, found) ↦
            let (owned, member) = prisma.find_first_some _ _ _ found in
            claim_found project_id name p member owned (rw (found, require) refl)
      ]

  -- A domain is removed only for the owner of its project, it alone, and nothing else is written.
  pub remove_domain_lem : (id : String) → ReleaseOutcome user_id id w (remove_domain user_id id w)
  unfolding remove_domain
  remove_domain_lem id =
      require_rule (ReleaseOutcome user_id id w) _ w
        (prisma.find_first (is_domain_of w.db user_id id) w.db.domains) _ (λ _. refl)
        (λ d found.
          let (owned, member) = prisma.find_first_some _ _ _ found in
          (
            member,
            owned,
            ap (λ t. record w { db = record w.db { domains = t } })
                (prisma.delete_where_lem (λ (x : Domain). x.id == id) w.db.domains),
          ))
