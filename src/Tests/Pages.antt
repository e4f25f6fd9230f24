-- ===== src/Tests/Pages.antt =====
-- Runs of the pages: the editor of variables, the dialog of a new project, a deployment's page.
use code2cloud.Prelude.{◌≡◌, refl, true, false, some, none, List, [], ◌∷◌, ℕ, String, if◌then◌else◌}
use code2cloud.Schema.{production}
use code2cloud.EnvEditor.Line.{trim, parse_env_line, parse_lines, split_lines}
use code2cloud.EnvEditor.RoundTrip.{env_line, parse_env_line_lem}
use code2cloud.EnvEditor.State.{
  EditedVar, Action, toggle_all, answer_save, save_env_changes, finish_save, change, save,
  import_file, value, opened, is_known, act, run,
}
use code2cloud.EnvEditor.Changes.{IsMarked, value_of, value_in, run-IsMarked, import_file_lem}
use code2cloud.Frameworks.{detect_framework}
use code2cloud.Repositories.Service.{repository_of}
use code2cloud.NewProject.Form.{
  Dialog, handle_import, handle_root_directory_change, on_submit, payload_of,
}
use code2cloud.NewProject.Agreement.{has_no_preset, detect_at, handle_root_directory_change_lem}
use code2cloud.NewProject.Payload.{is_valid_dto, on_submit-is_valid}
use code2cloud.Tests.Client.{list_client}
use code2cloud.Tests.Sites.{vite_json, engine_node}

parse_env_line_lem_example :
    parse_env_line (env_line " " "A.b" "" " " "x = 'y' ")
    ≡ some (record { key = "A.b"; value = trim "x = 'y' " })
parse_env_line_lem_example = parse_env_line_lem " " "A.b" "" " " "x = 'y' " refl refl refl refl refl

abbrev mode : EditedVar
mode = record { id = "v1"; key = "MODE"; value = "fast"; targets = production ∷ [] }

abbrev numbered : ℕ → String
numbered n = "new"

abbrev edits : List Action
edits = change "v1" value "slow" ∷ save ∷ toggle_all ∷ answer_save 0 true ∷ []

run-IsMarked_example : IsMarked (run numbered edits (opened (mode ∷ [])))
unfolding act save_env_changes finish_save
run-IsMarked_example = run-IsMarked numbered edits (opened (mode ∷ [])) refl refl (λ d. refl)

abbrev env_file : String
env_file = "MODE=slow"

import_file_lem_example :
    value_of "MODE" (act numbered (import_file env_file) (opened (mode ∷ []))).env_vars ≡ (
      if is_known (mode ∷ []) "MODE"
      then value_of "MODE" (mode ∷ [])
      else value_in "MODE" (parse_lines (split_lines env_file)))
import_file_lem_example = import_file_lem numbered env_file (opened (mode ∷ [])) "MODE"

abbrev empty_dialog : Dialog
empty_dialog = record {
  form = record {
    project_name = "";
    root_directory = "./";
    framework = "other";
    build_command = "";
    output_directory = "";
    install_command = "";
    run_command = "";
    python_version = "";
    env_vars = [];
  };
  selected_repo = some (repository_of engine_node);
  has_account = true;
  show_build_settings = false;
  deploying = false;
}

handle_root_directory_change_lem_example :
    let d = detect_framework (some "{}") none in
    let form =
      (handle_root_directory_change
        (detect_at (λ p. some "{}") (λ p. none))
        "web"
        empty_dialog).form in
    (form.root_directory ≡ "web")
    × (form.framework ≡ d.framework)
    × (form.output_directory ≡ (if has_no_preset d.framework then "" else d.output_directory))
handle_root_directory_change_lem_example =
    handle_root_directory_change_lem empty_dialog "web" (λ p. some "{}") (λ p. none) refl refl

abbrev imported : Dialog
imported = handle_import (repository_of engine_node) empty_dialog

on_submit-is_valid_example :
    is_valid_dto (payload_of imported.form (repository_of engine_node)) ≡ true
unfolding on_submit handle_import
on_submit-is_valid_example =
    on_submit-is_valid engine_node (record { name = refl; owner = refl; url = refl }) imported
      (payload_of imported.form (repository_of engine_node)) refl refl
