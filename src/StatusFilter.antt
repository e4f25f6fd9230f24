-- ===== src/StatusFilter.antt =====
-- The lists of apps/web/app/dashboard/projects/page.tsx and apps/web/app/dashboard/deployments/page.tsx:
-- what the search and the chosen statuses leave.
use code2cloud.Prelude.{
  String, Bool, true, false, not, ◌&&◌, ◌||◌, ◌≡◌, refl, ◌==◌, Option, none, some, List, [], ◌∷◌,
  ◌++◌, any, filter, find?, map, head?, or_else, if◌then◌else◌, arith, eq_iff,
}
use code2cloud.Schema.{Project, Deployment}
use code2cloud.Deployments.{status_text}
use code2cloud.Frameworks.{includes}

-- A project with its deployments, the latest first.
pub record ListedProject : Type 0 where
  pub name : String
  pub framework : String
  pub deployments : List Deployment

pub record ListedDeployment : Type 0 where
  pub deployment : Deployment
  pub project : Option Project

-- `toggleStatus`
unfoldable pub toggle_status : String → List String → List String
toggle_status status chosen =
    if any (λ s. s == status) chosen
    then filter (λ s. not (s == status)) chosen
    else chosen ++ status ∷ []

abbrev pub is_chosen : List String → String → Bool
is_chosen chosen status = any (λ s. s == status) chosen

abbrev pub is_unset : List String → Bool
is_unset [] = true
is_unset (s ∷ chosen) = false

abbrev pub has_status : List String → Option Deployment → Bool
has_status chosen none = false
has_status chosen (some d) = is_chosen chosen (status_text d.status)

-- `enrichedDeployments`
abbrev pub enriched : List Project → List Deployment → List ListedDeployment
enriched projects deployments =
    map
      (λ (d : Deployment). record {
        deployment = d;
        project = find? (λ (p : Project). p.id == d.project_id) projects;
      })
      deployments

module _ (to_lower_case : String → String) where
  abbrev pub contains : String → String → Bool
  contains text query = includes (to_lower_case text) (to_lower_case query)

  abbrev pub name_contains : Option Project → String → Bool
  name_contains none query = false
  name_contains (some p) query = contains p.name query

  unfoldable pub filtered_projects : String → List String → List ListedProject → List ListedProject
  filtered_projects query chosen projects =
      filter
        (λ (p : ListedProject).
          (contains p.name query || contains p.framework query)
          && (is_unset chosen || has_status chosen (head? p.deployments)))
        projects

  unfoldable pub filtered_deployments :
      String → List String → List ListedDeployment → List ListedDeployment
  filtered_deployments query chosen deployments =
      filter
        (λ (d : ListedDeployment).
          (name_contains d.project query
            || (contains d.deployment.commit_hash query
                || (contains d.deployment.branch query
                    || contains (or_else d.deployment.commit_message "") query)))
          && (is_unset chosen || is_chosen chosen (status_text d.deployment.status)))
        deployments

chosen-append :
    (s t : String) (chosen : List String)
    → is_chosen (chosen ++ s ∷ []) t ≡ (is_chosen chosen t || s == t)
chosen-append s t [] = ground arith
chosen-append s t (c ∷ chosen) = ground (arith, chosen-append s t chosen)

chosen-filter :
    (s t : String) (chosen : List String)
    → is_chosen (filter (λ c. not (c == s)) chosen) t ≡ (is_chosen chosen t && not (s == t))
chosen-filter s t [] = refl
chosen-filter s t (c ∷ chosen) =
    ground (arith, chosen-filter s t chosen, eq_iff c s, eq_iff c t, eq_iff s t)

-- Choosing a status puts it in if it is out and takes it out if it is in, and leaves all others.
pub toggle_status_lem :
    (s t : String) (chosen : List String)
    → is_chosen (toggle_status s chosen) t
      ≡ (if s == t then not (is_chosen chosen t) else is_chosen chosen t)
unfolding toggle_status
toggle_status_lem s t chosen =
    ground (arith, chosen-filter s t chosen, chosen-append s t chosen, eq_iff s t)
