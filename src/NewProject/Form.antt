-- ===== src/NewProject/Form.antt =====
-- apps/web/components/project/NewProjectDialog.tsx: the form, what fills it in, and what is sent.
use Prim.Native.Char.{Char, code}
use Prim.Native.String.{[] as nil, ◌∷◌ as cons}
use code2cloud.Prelude.{
  String, Bool, true, false, not, Option, none, some, List, [], ◌∷◌, ◌&&◌, ◌||◌, leb, nat_eq,
  if◌then◌else◌, filter, lookup, or_else, non_empty, is_blank,
}
use code2cloud.Frameworks.{Detected}
use code2cloud.Repositories.Service.{Repository}
use code2cloud.Projects.Create.{CreateProjectDto, EnvVarDto}
use code2cloud.NewProject.Presets.{Preset, framework_presets, is_python}

-- lib/validation/project.ts; every field that may be missing has a text by default.
pub record ProjectForm : Type 0 where
  pub project_name : String
  pub root_directory : String
  pub framework : String
  pub build_command : String
  pub output_directory : String
  pub install_command : String
  pub run_command : String
  pub python_version : String
  pub env_vars : List EnvVarDto

pub record Dialog : Type 0 where
  pub form : ProjectForm
  pub selected_repo : Option Repository
  pub has_account : Bool
  pub show_build_settings : Bool
  pub deploying : Bool

pub data View : Type 0 where
  deploying configure connect list : View

abbrev pub is_name_char : Char → Bool
is_name_char c =
    let n = code c in
    (leb b'a' n && leb n b'z')
    || ((leb b'A' n && leb n b'Z') || ((leb b'0' n && leb n b'9') || nat_eq n b'-'))

abbrev pub is_name_text : String → Bool
is_name_text nil = true
is_name_text (cons c s) = is_name_char c && is_name_text s

abbrev pub is_missing : String → Bool
is_missing nil = true
is_missing (cons c s) = false

-- `projectSchema`: a name and a root directory are given, and the name has letters, digits and dashes.
abbrev pub is_valid_form : ProjectForm → Bool
is_valid_form form =
    (not (is_missing form.project_name) && is_name_text form.project_name)
    && not (is_missing form.root_directory)

-- `repo.name.replace(/[^a-zA-Z0-9-]/g, '-')`
abbrev pub dashed : String → String
dashed nil = nil
dashed (cons c s) = cons (if is_name_char c then c else "-") (dashed s)

-- `fullName.split('/')[0]`
abbrev pub owner_of_name : String → String
owner_of_name nil = nil
owner_of_name (cons c s) =
    let rest = owner_of_name s in if nat_eq (code c) b'/' then nil else cons c rest

abbrev pub apply_preset : String → Option Preset → Dialog → Dialog
apply_preset value none d = record d { form = record d.form { framework = value } }
apply_preset value (some preset) d = record d {
  form = record d.form {
    framework = value;
    install_command = "";
    build_command = "";
    run_command = "";
    output_directory = preset.output;
    python_version = "";
  };
  show_build_settings = d.show_build_settings || is_python value;
}

unfoldable pub handle_framework_change : String → Dialog → Dialog
handle_framework_change value d = apply_preset value (lookup value framework_presets) d

abbrev pub set_root : String → Dialog → Dialog
set_root path d = record d { form = record d.form { root_directory = path } }

abbrev pub apply_detected : Option Detected → Dialog → Dialog
apply_detected none d = d
apply_detected (some detected) d = handle_framework_change detected.framework d

abbrev pub is_selected : Option Repository → Bool
is_selected none = false
is_selected (some repo) = true

-- `detect` is what the request answers; `none` if it fails.
unfoldable pub handle_root_directory_change :
    (detect : String → Option Detected) → String → Dialog → Dialog
handle_root_directory_change detect path d =
    if is_selected d.selected_repo && d.has_account
    then apply_detected (detect path) (set_root path d)
    else set_root path d

-- A detected repository has no commands.
unfoldable pub handle_import : Repository → Dialog → Dialog
handle_import repo d = record d {
  form = record {
    project_name = dashed repo.name;
    root_directory = "./";
    framework = or_else (some repo.detected.framework) "unknown";
    build_command = "";
    install_command = "";
    run_command = "";
    output_directory = repo.detected.output_directory;
    python_version = "";
    env_vars = record { key = ""; value = "" } ∷ [];
  };
  selected_repo = some repo;
}

abbrev pub is_filled : EnvVarDto → Bool
is_filled v = not (is_blank v.key) && not (is_blank v.value)

abbrev pub payload_of : ProjectForm → Repository → CreateProjectDto
payload_of form repo = record {
  name = form.project_name;
  language = or_else repo.language "Unknown";
  framework = some form.framework;
  root_directory = some form.root_directory;
  install_command = some form.install_command;
  build_command = some form.build_command;
  run_command = some form.run_command;
  output_directory = some form.output_directory;
  python_version = non_empty (some form.python_version);
  git_repo_owner = owner_of_name repo.full_name;
  git_repo_name = repo.name;
  git_repo_id = repo.id;
  git_branch = repo.default_branch;
  git_repo_url = repo.url;
  git_clone_url = repo.clone_url;
  env_vars = filter is_filled form.env_vars;
}

abbrev pub payload_if : Dialog → Option Repository → Option CreateProjectDto
payload_if d none = none
payload_if d (some repo) = if is_valid_form d.form then some (payload_of d.form repo) else none

-- `handleSubmit(onSubmit)`: what is sent, if the form is valid and a repository is selected.
unfoldable pub on_submit : Dialog → Option CreateProjectDto
on_submit d = payload_if d d.selected_repo

abbrev pub shown_view : (is_loading is_connected : Bool) → Dialog → View
shown_view is_loading is_connected d =
    if d.deploying
    then deploying
    else if is_selected d.selected_repo
    then configure
    else if not is_loading && not is_connected
    then connect
    else list
