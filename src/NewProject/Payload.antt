-- ===== src/NewProject/Payload.antt =====
-- What the dialog sends, and the checks of the API on a new project (apps/api/src/projects/dto).
use Prim.Native.String.{[] as nil, ◌∷◌ as cons, ◌++◌ as str_append}
use text.Mathlib.TextLemmas.{cons-append}
use code2cloud.Prelude.{
  String, Bool, true, false, not, ◌≡◌, refl, sym, ap, subst, ◌∙◌, Option, none, some, List, [], ◌∷◌,
  ◌&&◌, all, filter, and_left, and_right, or_else, non_empty, if◌then◌else◌, is_blank, Bool-cases,
  inl, inr, ◌==◌,
}
use code2cloud.Frameworks.{PackageJson}
use code2cloud.Projects.Create.{CreateProjectDto, EnvVarDto}
use code2cloud.Repositories.Service.{RepoNode, repository_of}
use code2cloud.NewProject.Form.{
  ProjectForm, Dialog, is_name_char, is_name_text, is_missing, is_valid_form, is_filled, dashed,
  owner_of_name, payload_of, payload_if, on_submit, handle_import,
}

-- IsNotEmpty and Matches on the fields of BaseProjectDto and CreateProjectDto; the types of the
-- fields are those of the model.
abbrev pub is_valid_base : CreateProjectDto → Bool
is_valid_base dto =
    (not (is_missing dto.name) && is_name_text dto.name)
    && (not (is_missing dto.git_repo_name)
        && (not (is_missing dto.git_repo_owner)
            && (not (is_missing dto.git_branch)
                && (not (is_missing dto.git_repo_url)
                    && (not (is_missing dto.git_clone_url) && not (is_missing dto.language))))))

unfoldable pub is_valid_dto : CreateProjectDto → Bool
is_valid_dto dto = is_valid_base dto && all (λ (v : EnvVarDto). not (is_missing v.key)) dto.env_vars

-- What the node of a repository has on GitHub: a name, an owner and an address.
pub record IsNamed (node : RepoNode) : Type 0 where
  pub name : is_missing node.name ≡ false
  pub owner : is_missing (owner_of_name node.name_with_owner) ≡ false
  pub url : is_missing node.url ≡ false

has_key : (v : EnvVarDto) → is_filled v ≡ true → not (is_missing v.key) ≡ true
has_key v h = by_key v.key (and_left (not (is_blank v.key)) (not (is_blank v.value)) h)
  where
    by_key : (k : String) → not (is_blank k) ≡ true → not (is_missing k) ≡ true
    by_key nil h = h
    by_key (cons c s) h = refl

have_keys :
    (vars : List EnvVarDto)
    → all (λ (v : EnvVarDto). not (is_missing v.key)) (filter is_filled vars) ≡ true
have_keys [] = refl
have_keys (v ∷ vars) = elim (Bool-cases (is_filled v)) [
  | inl kept ↦ rw (kept, has_key v kept) (have_keys vars)
  | inr dropped ↦ rw dropped (have_keys vars)
]

or_else-given :
    (o : Option String) (d : String) → is_missing d ≡ false → is_missing (or_else o d) ≡ false
or_else-given none d h = h
or_else-given (some s) d h = elim (Bool-cases (s == "")) [
  | inl empty ↦ rw empty h
  | inr given ↦ rw given (by_text s given)
]
  where
    by_text : (s : String) → (s == "") ≡ false → is_missing s ≡ false
    by_text nil h = cc
    by_text (cons c s) h = refl

append-given : (s t : String) → is_missing s ≡ false → is_missing (str_append s t) ≡ false
append-given nil t h = cc
append-given (cons c s) t h = rw (cons-append c s t) refl

name_char-dashed : (s : String) → is_name_text (dashed s) ≡ true
name_char-dashed nil = refl
name_char-dashed (cons c s) = elim (Bool-cases (is_name_char c)) [
  | inl kept ↦ rw (kept, kept) (name_char-dashed s)
  | inr other ↦ rw other (name_char-dashed s)
]

module _ ⦃json : PackageJson⦄ (node : RepoNode) (named : IsNamed node) where
  payload_of-is_valid :
      (form : ProjectForm)
      → is_valid_form form ≡ true
      → is_valid_dto (payload_of form (repository_of node)) ≡ true
  unfolding is_valid_dto
  payload_of-is_valid form h =
      rw
        (
          and_left (not (is_missing form.project_name)) (is_name_text form.project_name) name_ok,
          and_right (not (is_missing form.project_name)) (is_name_text form.project_name) name_ok,
          named.name,
          named.owner,
          or_else-given node.default_branch "main" refl,
          named.url,
          append-given node.url ".git" named.url,
          have_keys form.env_vars,
          or_else-given (non_empty node.primary_language) "Unknown" refl,
        )
        refl
    where
      name_ok : (not (is_missing form.project_name) && is_name_text form.project_name) ≡ true
      name_ok =
          and_left (not (is_missing form.project_name) && is_name_text form.project_name)
            (not (is_missing form.root_directory)) h

  some-inj : {a b : CreateProjectDto} → ◌≡◌ {A = Option CreateProjectDto} (some a) (some b) → a ≡ b
  some-inj e = cc

  none≢some : {a : CreateProjectDto} → ◌≡◌ {A = Option CreateProjectDto} none (some a) → ⊥
  none≢some e = cc

  -- Whatever the user has made of the form, what the dialog sends for a repository that the API has
  -- listed passes the API's own checks on a new project, if the repository has a name, an owner and
  -- an address: the language and the branch are never missing, and no variable is without a key.
  pub on_submit-is_valid :
      (d : Dialog) (dto : CreateProjectDto)
      → d.selected_repo ≡ some (repository_of node)
      → on_submit d ≡ some dto
      → is_valid_dto dto ≡ true
  unfolding on_submit
  on_submit-is_valid d dto selected sent = by_form (is_valid_form d.form) refl
    where
      payload : CreateProjectDto
      payload = payload_of d.form (repository_of node)

      sent_if : (if is_valid_form d.form then some payload else none) ≡ some dto
      sent_if = ap (payload_if d) (sym selected) ∙ sent

      by_form : (b : Bool) → is_valid_form d.form ≡ b → is_valid_dto dto ≡ true
      by_form true valid =
          let same : payload ≡ dto =
            some-inj (ap (λ b. if b then some payload else none) (sym valid) ∙ sent_if) in
          subst (λ p. is_valid_dto p ≡ true) same (payload_of-is_valid d.form valid)
      by_form false invalid =
          absurd (none≢some (ap (λ b. if b then some payload else none) (sym invalid) ∙ sent_if))

  is_missing-dashed : (s : String) → is_missing s ≡ false → is_missing (dashed s) ≡ false
  is_missing-dashed nil h = cc
  is_missing-dashed (cons c s) h = refl

  -- A repository that the API has listed can be submitted as it was imported. The project then has
  -- the repository's address and branch, the output directory that was detected, and no variables.
  pub handle_import_lem :
      (d : Dialog)
      → (dto : CreateProjectDto) × (on_submit (handle_import (repository_of node) d) ≡ some dto)
        × (is_valid_dto dto ≡ true)
        × (dto.git_clone_url ≡ str_append node.url ".git")
        × (dto.git_branch ≡ (repository_of node).default_branch)
        × (dto.output_directory ≡ some (repository_of node).detected.output_directory)
        × (dto.env_vars ≡ [])
  unfolding on_submit handle_import
  handle_import_lem d =
      let form = (handle_import (repository_of node) d).form in
      let valid : is_valid_form form ≡ true =
        rw (is_missing-dashed node.name named.name, name_char-dashed node.name) refl in
      (
        payload_of form (repository_of node),
        rw valid refl,
        payload_of-is_valid form valid,
        refl,
        refl,
        refl,
        refl,
      )
