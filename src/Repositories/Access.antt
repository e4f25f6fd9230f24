-- ===== src/Repositories/Access.antt =====
-- apps/api/src/git/git.controller.ts: whose installations the routes ask GitHub for.
use mathlib.Core.Bool.{false≢true}
use code2cloud.Prelude.{
  String, true, ◌≡◌, refl, ap, sym, ◌∙◌, subst, Option, none, some, inl, inr, ◌==◌, In, eq_iff,
  non_empty, Option-cases, and_left, and_right,
}
use code2cloud.Schema.{GitAccount}
use code2cloud.Prisma.{Prisma}
use code2cloud.Frameworks.{PackageJson}
use code2cloud.World.{World, Outcome, fail, Act, bad_request, pure, require, ◌>>=◌}
use code2cloud.Repositories.Service.{
  GithubFiles, list_repositories, get_repo_contents, detect_framework_config,
}
use code2cloud.Repositories.Routes.{
  is_installation, is_own_github, is_installed_by, verify_installation, list_repos, get_repo_tree,
  detect_framework_route,
}

-- A GitHub account of the user, under which the app has the installation.
pub record IsOwner (user_id installation : String) (a : GitAccount) : Type 0 where
  pub owner : a.user_id ≡ user_id
  pub on_github : a.provider ≡ "github"
  pub under_installation : a.installation_id ≡ some installation

is_installation_lem :
    (installation : String) (o : Option String)
    → is_installation installation o ≡ true
    → o ≡ some installation
is_installation_lem installation none h = cc
is_installation_lem installation (some i) h = ap (λ j. some j) ((eq_iff i installation).0 h)

is_installed_by-IsOwner :
    (user_id installation : String) (a : GitAccount)
    → is_installed_by user_id installation a ≡ true
    → IsOwner user_id installation a
is_installed_by-IsOwner user_id installation a h =
    let mine =
      and_left (is_own_github user_id a) (is_installation installation a.installation_id) h in
    record {
      owner =
          (eq_iff a.user_id user_id).0
            (and_left (a.user_id == user_id) (a.provider == "github") mine);
      on_github =
          (eq_iff a.provider "github").0
            (and_right (a.user_id == user_id) (a.provider == "github") mine);
      under_installation =
          is_installation_lem installation a.installation_id (
            and_right (is_own_github user_id a) (is_installation installation a.installation_id) h);
    }

IsOwner-is_installed_by :
    (user_id installation : String) (a : GitAccount)
    → IsOwner user_id installation a
    → is_installed_by user_id installation a ≡ true
IsOwner-is_installed_by user_id installation a o =
    rw
      (
        o.under_installation,
        (eq_iff installation installation).1 refl,
        (eq_iff a.user_id user_id).1 o.owner,
        (eq_iff a.provider "github").1 o.on_github,
      )
      refl

module _ ⦃prisma : Prisma⦄ (user_id : String) (query : Option String) (w : World) where
  -- The service is asked for an installation of the user, or the request fails because the user has
  -- no account with the installation.
  pub data Access {A : Type 0} (service : String → Act A) (answer : Outcome A) : Type 0 where
    owned :
        (installation : String) (a : GitAccount)
        → non_empty query ≡ some installation
        → In a w.db.git_accounts
        → IsOwner user_id installation a
        → answer ≡ service installation w
        → Access service answer
    denied :
        ((installation : String) (a : GitAccount)
          → non_empty query ≡ some installation
          → In a w.db.git_accounts
          → IsOwner user_id installation a
          → ⊥)
        → (message : String) → answer ≡ fail (bad_request message) w
        → Access service answer

  none≢some : {a : String} → ◌≡◌ {A = Option String} none (some a) → ⊥
  none≢some e = cc

  some-inj : {a b : String} → ◌≡◌ {A = Option String} (some a) (some b) → a ≡ b
  some-inj e = cc

  verified-Access :
      {A : Type 0} (service : String → Act A)
      → Access service ((verify_installation user_id query >>= service) w)
  unfolding verify_installation
  verified-Access service = elim (Option-cases (non_empty query)) [
    | inl missing ↦ rw missing (
        denied (λ i a given h o. none≢some (sym missing ∙ given)) "installationId is required" refl)
    | inr (installation, given) ↦ rw given (
        by_account installation given
          (prisma.find_first (is_installed_by user_id installation) w.db.git_accounts) refl)
  ]
    where
      by_account :
          (installation : String)
          → non_empty query ≡ some installation
          → (o : Option GitAccount)
          → prisma.find_first (is_installed_by user_id installation) w.db.git_accounts ≡ o
          → Access service (
              (require o (bad_request "GitHub account not found or access denied")
                  >>= (λ (a : GitAccount). pure installation)
                  >>= service)
                w)
      by_account installation given none missing =
          denied
            (λ i a asked h o.
              let same : i ≡ installation = some-inj (sym asked ∙ given) in
              false≢true (
                sym (prisma.find_first_none _ _ a missing h)
                ∙ IsOwner-is_installed_by user_id installation a
                    (subst (λ j. IsOwner user_id j a) same o)))
            "GitHub account not found or access denied" refl
      by_account installation given (some a) found =
          let (hit, member) = prisma.find_first_some _ _ a found in
          owned installation a given member (is_installed_by-IsOwner user_id installation a hit)
            refl

  module _ ⦃github : GithubFiles⦄ ⦃json : PackageJson⦄ (owner repo path : String) where
    -- Repositories, files and the detected framework are asked of GitHub exactly for an installation
    -- of a GitHub account of the user, and are then what the service answers. Every other request is
    -- a bad request, whatever GitHub would answer, and nothing is written.
    pub routes_lem :
        Access list_repositories (list_repos user_id query w)
        × Access
            (λ i. get_repo_contents i owner repo path)
            (get_repo_tree user_id query owner repo path w)
        × Access
            (λ i. detect_framework_config i owner repo path)
            (detect_framework_route user_id query owner repo path w)
    unfolding list_repos get_repo_tree detect_framework_route
    routes_lem = (
      verified-Access list_repositories,
      verified-Access (λ i. get_repo_contents i owner repo path),
      verified-Access (λ i. detect_framework_config i owner repo path),
    )
