-- ===== src/EnvEditor/State.antt =====
-- apps/web/components/project/EnvVarsPanel.tsx: the variables on the screen, and what each of the
-- editor's actions makes of them.
use Prim.Native.String.{String}
use code2cloud.Prelude.{
  ℕ, zero, suc, ◌+◌, Bool, true, false, not, ◌||◌, ◌==◌, Option, none, some, if◌then◌else◌,
  is_blank, List, [], ◌∷◌, ◌++◌, map, filter, find?, any, length,
}
use code2cloud.Schema.{EnvironmentType, production, preview, development}
use code2cloud.EnvEditor.Line.{Parsed, parse_lines, split_lines}

-- types/project.ts, `EnvVar`.
pub record EditedVar : Type 0 where
  pub id : String
  pub key : String
  pub value : String
  pub targets : List EnvironmentType

-- `saved` is `project.envVars`, in the ids of the editor; `pending` are the requests to save that are
-- not answered, each with what was saved before it; `ids` counts the calls of `crypto.randomUUID`.
-- The cache is not read again from the server after a save.
pub record Editor : Type 0 where
  pub env_vars : List EditedVar
  pub saved : List EditedVar
  pub pending : List (List EditedVar)
  pub dirty : Bool
  pub show_values : List String
  pub show_all : Bool
  pub ids : ℕ

pub data Field : Type 0 where
  key value : Field

pub data Action : Type 0 where
  import_file : String → Action
  save : Action
  answer_save : ℕ → Bool → Action
  discard : Action
  toggle_visibility : String → Action
  toggle_all : Action
  change : String → Field → String → Action
  toggle_env : String → EnvironmentType → Action
  add_empty : Action
  remove_one : String → Action
  undo : EditedVar → Action

-- `useState(project.envVars ?? [])`.
abbrev pub opened : List EditedVar → Editor
opened vars = record {
  env_vars = vars;
  saved = vars;
  pending = [];
  dirty = false;
  show_values = [];
  show_all = false;
  ids = 0;
}

abbrev pub same_env : EnvironmentType → EnvironmentType → Bool
same_env production production = true
same_env preview preview = true
same_env development development = true
same_env _ _ = false

abbrev pub has_var_id : String → EditedVar → Bool
has_var_id id v = v.id == id

abbrev pub edited_keys : List EditedVar → List String
edited_keys vars = map (λ (v : EditedVar). v.key) vars

abbrev pub is_known : List EditedVar → String → Bool
is_known vars k = any (λ j. j == k) (edited_keys vars)

-- `prev.map(v => v.id === id ? { ...v, … } : v)`.
abbrev pub edit : String → (EditedVar → EditedVar) → List EditedVar → List EditedVar
edit id f vars = map (λ v. if has_var_id id v then f v else v) vars

abbrev pub set_field : Field → String → EditedVar → EditedVar
set_field key text v = record v { key = text }
set_field value text v = record v { value = text }

abbrev pub toggle_target : EnvironmentType → EditedVar → EditedVar
toggle_target env v = record v {
  targets =
      if any (same_env env) v.targets
      then filter (λ e. not (same_env env e)) v.targets
      else v.targets ++ env ∷ [];
}

abbrev pub toggle_value : String → Editor → Editor
toggle_value id e = record e {
  show_values =
      if any (λ s. s == id) e.show_values
      then filter (λ s. not (s == id)) e.show_values
      else e.show_values ++ id ∷ [];
}

abbrev pub is_visible : Editor → String → Bool
is_visible e id = e.show_all || any (λ s. s == id) e.show_values

-- Up to the answer: `saveEnvVars` puts the variables into the cache before it asks.
unfoldable pub save_env_changes : Editor → Editor
save_env_changes e =
    if any (λ (v : EditedVar). is_blank v.key) e.env_vars
    then e
    else record e { saved = e.env_vars; pending = e.pending ++ e.saved ∷ [] }

-- One request of those that wait, and the others.
abbrev pub taken : ℕ → List (List EditedVar) → Option (List EditedVar × List (List EditedVar))
taken n [] = none
taken zero (p ∷ ps) = some (p, ps)
taken (suc n) (p ∷ ps) = elim (taken n ps) [ none ↦ none | some (q, qs) ↦ some (q, p ∷ qs) ]

-- After the answer: what was in the cache comes back where the request failed.
abbrev pub after_answer : Bool → Option (List EditedVar × List (List EditedVar)) → Editor → Editor
after_answer accepted none e = e
after_answer true (some (previous, others)) e = record e { pending = others; dirty = false }
after_answer false (some (previous, others)) e = record e { pending = others; saved = previous }

unfoldable pub finish_save : ℕ → Bool → Editor → Editor
finish_save n accepted e = after_answer accepted (taken n e.pending) e

unfoldable pub remove_var : String → Editor → Editor
remove_var id e = elim (find? (has_var_id id) e.env_vars) [
  | none ↦ e
  | some v ↦ record e { env_vars = filter (λ w. not (has_var_id id w)) e.env_vars; dirty = true }
]

module _ (random_uuid : ℕ → String) where
  abbrev pub to_vars : ℕ → List Parsed → List EditedVar
  to_vars n [] = []
  to_vars n (p ∷ ps) =
      record { id = random_uuid n; key = p.key; value = p.value; targets = production ∷ [] }
      ∷ to_vars (suc n) ps

  abbrev pub fresh_of : Editor → List Parsed → List Parsed
  fresh_of e parsed = filter (λ (p : Parsed). not (is_known e.env_vars p.key)) parsed

  unfoldable pub import_parsed : List Parsed → Editor → Editor
  import_parsed [] e = e
  import_parsed (p ∷ ps) e = record e {
    env_vars = to_vars e.ids (fresh_of e (p ∷ ps)) ++ e.env_vars;
    ids = e.ids + length (fresh_of e (p ∷ ps));
    dirty = true;
  }

  unfoldable pub add_empty_var : Editor → Editor
  add_empty_var e =
      let id = random_uuid e.ids in
      toggle_value id (record e {
        env_vars = record { id = id; key = ""; value = ""; targets = [] } ∷ e.env_vars;
        ids = e.ids + 1;
        dirty = true;
      })

  unfoldable pub act : Action → Editor → Editor
  unfolding import_parsed save_env_changes finish_save add_empty_var remove_var
  act (import_file text) e = import_parsed (parse_lines (split_lines text)) e
  act save e = save_env_changes e
  act (answer_save n accepted) e = finish_save n accepted e
  act discard e = record e { env_vars = e.saved; dirty = false }
  act (toggle_visibility id) e = toggle_value id e
  act toggle_all e = record e { show_all = not e.show_all }
  act (change id field text) e = record e {
    env_vars = edit id (set_field field text) e.env_vars;
    dirty = true;
  }
  act (toggle_env id env) e = record e {
    env_vars = edit id (toggle_target env) e.env_vars;
    dirty = true;
  }
  act add_empty e = add_empty_var e
  act (remove_one id) e = remove_var id e
  act (undo v) e = record e { env_vars = v ∷ e.env_vars }

  abbrev pub run : List Action → Editor → Editor
  run [] e = e
  run (a ∷ rest) e = run rest (act a e)
