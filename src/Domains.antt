-- ===== src/Domains.antt =====
-- apps/api/src/domains/domains.service.ts: the domains of a project.
pub mod Claims
use code2cloud.Prelude.{
  String, Bool, true, false, not, none, some, List, [], ◌∷◌, map, length, ◌==◌, nat_eq, ◌&&◌,
}
use code2cloud.Schema.{Domain, pending, production}
use code2cloud.Prisma.{Prisma}
use code2cloud.World.{
  Database, World, Act, not_found, bad_request, pure, ◌>>=◌, ◌>>◌, get, guard, require, set_domains,
}
use code2cloud.Deployments.{find_project, is_project_of, project_of_user}

abbrev pub is_named : String → Domain → Bool
is_named name d = d.name == name

abbrev pub is_domain_of : Database → String → String → Domain → Bool
is_domain_of db user_id id d = (d.id == id) && project_of_user db user_id d.project_id

module _ ⦃prisma : Prisma⦄ where
  abbrev pub new_domain : World → String → String → Domain
  new_domain w project_id name = record {
    id = prisma.uuid (map (λ (d : Domain). d.id) w.db.domains);
    name = name;
    status = pending;
    kind = production;
    error_text = none;
    project_id = project_id;
    created_at = w.now;
  }

  unfoldable pub create_domain : String → String → String → Act Domain
  create_domain user_id project_id name = do
    _ ← find_project user_id project_id
    w ← get
    let existing = prisma.find_first (is_named name) w.db.domains
    guard (elim existing [ none ↦ true | some _ ↦ false ]) (bad_request "Domain is already in use")
    set_domains (prisma.create (new_domain w project_id name ∷ []) w.db.domains)
    pure (new_domain w project_id name)

  unfoldable pub find_domains : String → String → Act (List Domain)
  find_domains user_id project_id = do
    w ← get
    let count = length (prisma.find_many (is_project_of user_id project_id) w.db.projects)
    guard (not (nat_eq count 0)) (not_found "Project not found")
    pure (
        prisma.order_desc (λ (d : Domain). d.created_at)
          (prisma.find_many (λ (d : Domain). d.project_id == project_id) w.db.domains))

  unfoldable pub remove_domain : String → String → Act Domain
  remove_domain user_id id = do
    w ← get
    d ←
        require (prisma.find_first (is_domain_of w.db user_id id) w.db.domains)
          (not_found "Domain not found")
    set_domains (prisma.delete_where (λ (d : Domain). d.id == id) w.db.domains)
    pure d
