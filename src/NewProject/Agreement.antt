-- ===== src/NewProject/Agreement.antt =====
-- The frameworks that the API detects (apps/api/src/git/git.service.ts) and the presets of the dialog
-- (apps/web/types/git.ts).
use mathlib.Core.Option
use code2cloud.Prelude.{
  String, Bool, true, false, ◌≡◌, refl, sym, ap, subst, ◌∙◌, Option, none, some, List, [], ◌∷◌,
  ◌==◌, ◌||◌, ◌&&◌, All, find?, lookup, if◌then◌else◌, Bool-cases, inl, inr, non_empty, arith,
}
use code2cloud.Frameworks.{
  PackageJson, FrameworkEntry, Detected, node_frameworks, entry_or, detect_node, detect_python,
  python_of, from_files, detect_framework, includes, lower_case,
}
use code2cloud.NewProject.Presets.{Preset, framework_presets}
use code2cloud.NewProject.Form.{
  Dialog, apply_preset, set_root, handle_framework_change, handle_root_directory_change,
  is_selected,
}

-- The detected frameworks that the dialog has no preset for.
abbrev pub has_no_preset : String → Bool
has_no_preset framework =
    framework == "gatsby" || (framework == "node-server" || framework == "unknown")

abbrev pub output_of : Option Preset → Option String
output_of none = none
output_of (some preset) = some preset.output

abbrev pub expected_output : Detected → Option String
expected_output d = if has_no_preset d.framework then none else some d.output_directory

-- The preset for a detected framework has the output directory that was detected with it.
abbrev pub Agrees : Detected → Type 0
Agrees d = output_of (lookup d.framework framework_presets) ≡ expected_output d

abbrev detected_entry : FrameworkEntry → Detected
detected_entry e = record { framework = e.framework; output_directory = e.output_directory }

table-Agrees : All (λ e. Agrees (detected_entry e)) node_frameworks
table-Agrees = (
  refl,
  (refl, (refl, (refl, (refl, (refl, (refl, (refl, (refl, (refl, (refl, (refl, tt))))))))))),
)

some-inj : {a b : FrameworkEntry} → ◌≡◌ {A = Option FrameworkEntry} (some a) (some b) → a ≡ b
some-inj e = cc

find?-All :
    (P : FrameworkEntry → Type 0) (p : FrameworkEntry → Bool) (table : List FrameworkEntry)
    (e : FrameworkEntry)
    → All P table
    → find? p table ≡ some e
    → P e
find?-All P p [] e h found = absurd (cc)
find?-All P p (x ∷ xs) e (q, h) found = elim (Bool-cases (p x)) [
  | inl here ↦ subst P (some-inj (rw here at found)) q
  | inr there ↦ find?-All P p xs e h (rw there at found)
]

if-Agrees : (b : Bool) (x y : Detected) → Agrees x → Agrees y → Agrees (if b then x else y)
if-Agrees true x y h k = h
if-Agrees false x y h k = k

entry_or-Agrees :
    (has : String → Bool) (o : Option FrameworkEntry)
    → find? (λ e. has e.dependency) node_frameworks ≡ o
    → Agrees (entry_or has o)
entry_or-Agrees has none missing =
    if-Agrees (has "express" || (has "fastify" || has "koa"))
      (record { framework = "node-server"; output_directory = "." })
      (record { framework = "node"; output_directory = "." }) refl refl
entry_or-Agrees has (some e) found =
    find?-All (λ e. Agrees (detected_entry e)) (λ e. has e.dependency) node_frameworks e
      table-Agrees found

detect_node-Agrees : (has : String → Bool) → Agrees (detect_node has)
unfolding detect_node
detect_node-Agrees has = entry_or-Agrees has (find? (λ e. has e.dependency) node_frameworks) refl

python_of-Agrees : (contains : String → Bool) → Agrees (python_of contains)
python_of-Agrees contains = if-Agrees (contains "django") (python "django" "staticfiles") _ refl (
    if-Agrees (contains "fastapi") (python "fastapi" ".") _ refl (
      if-Agrees (contains "flask") (python "flask" ".") _ refl (
        if-Agrees (contains "streamlit") (python "streamlit" ".") (python "python" ".") refl refl)))
  where
    python : String → String → Detected
    python framework output = record { framework = framework; output_directory = output }

detect_python-Agrees : (text : String) → Agrees (detect_python text)
unfolding detect_python
detect_python-Agrees text = python_of-Agrees (includes (lower_case text))

detect_framework-Agrees :
    ⦃json : PackageJson⦄ (manifest requirements : Option String)
    → Agrees (detect_framework manifest requirements)
unfolding detect_framework
detect_framework-Agrees ⦃json⦄ manifest requirements =
    by_files (Option.bind (non_empty manifest) json.dependencies_of) (non_empty requirements)
  where
    by_files : (o : Option (String → Bool)) (r : Option String) → Agrees (from_files o r)
    by_files (some has) r = detect_node-Agrees has
    by_files none (some text) = detect_python-Agrees text
    by_files none none = refl

abbrev pub kept_or : Option String → String → String
kept_or none old = old
kept_or (some output) old = output

handle_framework_change_lem :
    (d : Detected) (x : Dialog)
    → Agrees d
    → (handle_framework_change d.framework x).form.output_directory
      ≡ kept_or (expected_output d) x.form.output_directory
unfolding handle_framework_change
handle_framework_change_lem d x h = by_preset (lookup d.framework framework_presets) h
  where
    by_preset :
        (o : Option Preset)
        → output_of o ≡ expected_output d
        → (apply_preset d.framework o x).form.output_directory
          ≡ kept_or (expected_output d) x.form.output_directory
    by_preset none e = ap (λ r. kept_or r x.form.output_directory) e
    by_preset (some preset) e = ap (λ r. kept_or r x.form.output_directory) e

framework_name :
    (d : Detected) (x : Dialog)
    → (handle_framework_change d.framework x).form.framework ≡ d.framework
unfolding handle_framework_change
framework_name d x = by_preset (lookup d.framework framework_presets)
  where
    by_preset : (o : Option Preset) → (apply_preset d.framework o x).form.framework ≡ d.framework
    by_preset none = refl
    by_preset (some preset) = refl

root_name :
    (d : Detected) (x : Dialog)
    → (handle_framework_change d.framework x).form.root_directory ≡ x.form.root_directory
unfolding handle_framework_change
root_name d x = by_preset (lookup d.framework framework_presets)
  where
    by_preset :
        (o : Option Preset)
        → (apply_preset d.framework o x).form.root_directory ≡ x.form.root_directory
    by_preset none = refl
    by_preset (some preset) = refl

-- The answer of the API for the files at a path.
module _ ⦃json : PackageJson⦄ (manifest requirements : String → Option String) where
  abbrev pub detect_at : String → Option Detected
  detect_at p = some (detect_framework (manifest p) (requirements p))

module _ ⦃json : PackageJson⦄ (x : Dialog) (path : String)
    (manifest requirements : String → Option String) where
  -- When the root directory of a selected repository is changed and the API detects a framework from
  -- the files at the new path, the form has that path, that framework and the output directory that
  -- the API has for it, although the dialog takes it from a table of its own; only for gatsby,
  -- node-server and unknown the output directory stays what it was.
  pub handle_root_directory_change_lem :
      is_selected x.selected_repo ≡ true
      → x.has_account ≡ true
      → let d = detect_framework (manifest path) (requirements path) in
        let form = (handle_root_directory_change (detect_at manifest requirements) path x).form in
        (form.root_directory ≡ path)
        × (form.framework ≡ d.framework)
        × (form.output_directory
            ≡ (if has_no_preset d.framework then x.form.output_directory else d.output_directory))
  unfolding handle_root_directory_change
  handle_root_directory_change_lem selected account =
      let d = detect_framework (manifest path) (requirements path) in
      subst
        (λ (b : Bool).
          let form =
            (if b
              then handle_framework_change d.framework (set_root path x)
              else set_root path x).form in
          (form.root_directory ≡ path)
          × (form.framework ≡ d.framework)
          × (form.output_directory ≡ (
              if has_no_preset d.framework then x.form.output_directory else d.output_directory)))
        (sym both)
        (
          root_name d (set_root path x),
          framework_name d (set_root path x),
          handle_framework_change_lem d (set_root path x)
                (detect_framework-Agrees (manifest path) (requirements path))
              ∙ output_kept (has_no_preset d.framework) d.output_directory,
        )
    where
      output_kept :
          (b : Bool) (o : String)
          → kept_or (if b then none else some o) x.form.output_directory
            ≡ (if b then x.form.output_directory else o)
      output_kept true o = refl
      output_kept false o = refl

      both : (is_selected x.selected_repo && x.has_account) ≡ true
      both = ground (arith, selected, account)
