-- ===== src/NewProject/EnvFile.antt =====
-- apps/web/components/project/NewProjectDialog.tsx, `importEnvFile`: the variables of a .env file.
use Prim.Native.Char.{Char, code}
use Prim.Native.String.{String, [] as nil, ◌∷◌ as cons}
use code2cloud.Prelude.{
  Bool, false, not, ◌||◌, Option, none, some, List, [], ◌∷◌, ◌++◌, nat_eq, if◌then◌else◌,
}
use code2cloud.EnvEditor.Line.{trim, split_lines, is_empty, span}
use code2cloud.Projects.Create.{EnvVarDto}
use code2cloud.NewProject.Form.{Dialog}

abbrev pub is_comment : String → Bool
is_comment nil = false
is_comment (cons c s) = nat_eq (code c) b'#'

-- The text before the first `=` is the key, the text after it the value.
abbrev pub assignment : String × String → Option EnvVarDto
assignment (key, nil) = none
assignment (key, cons c value) = some (record { key = key; value = value })

abbrev pub is_not_equals : Char → Bool
is_not_equals c = not (nat_eq (code c) b'=')

abbrev pub dialog_line : String → Option EnvVarDto
dialog_line line =
    let trimmed = trim line in
    if is_empty trimmed || is_comment trimmed then none else assignment (span is_not_equals trimmed)

abbrev pub dialog_lines : List String → List EnvVarDto
dialog_lines [] = []
dialog_lines (l ∷ ls) =
    let rest = dialog_lines ls in elim (dialog_line l) [ none ↦ rest | some v ↦ v ∷ rest ]

unfoldable pub import_env_file : String → Dialog → Dialog
import_env_file text d = record d {
  form = record d.form { env_vars = d.form.env_vars ++ dialog_lines (split_lines text) };
}
