-- ===== src/Frameworks.antt =====
-- apps/api/src/git/git.service.ts: `detectFrameworkFromContents`, the framework that the files of a
-- repository suggest.
pub mod Order
use Prim.Native.Char.{code}
use Prim.Native.String.{[] as nil, ◌∷◌ as cons}
use mathlib.Core.Option
use code2cloud.Prelude.{
  String, Bool, true, false, Option, none, some, List, [], ◌∷◌, find?, nat_eq, non_empty, ◌&&◌,
  ◌||◌, if◌then◌else◌,
}
use code2cloud.Url.{lower}

-- JSON.parse, and the spread of `dependencies` and `devDependencies`: which names have a text that
-- is not empty there; `none` is a throw.
pub record PackageJson : Type 0 where
  pub dependencies_of : String → Option (String → Bool)

pub record FrameworkEntry : Type 0 where
  pub dependency : String
  pub framework : String
  pub output_directory : String

-- The commands are always the empty text.
pub record Detected : Type 0 where
  pub framework : String
  pub output_directory : String

abbrev entry : String → String → String → FrameworkEntry
entry dependency framework output_directory = record {
  dependency = dependency;
  framework = framework;
  output_directory = output_directory;
}

abbrev detected : String → String → Detected
detected framework output_directory = record {
  framework = framework;
  output_directory = output_directory;
}

abbrev pub node_frameworks : List FrameworkEntry
node_frameworks =
    entry "next" "nextjs" ".next"
    ∷ entry "@nestjs/core" "nestjs" "dist"
    ∷ entry "nuxt" "nuxt" ".output/public"
    ∷ entry "express" "express" "."
    ∷ entry "fastify" "fastify" "."
    ∷ entry "vite" "vite" "dist"
    ∷ entry "@angular/core" "angular" "dist"
    ∷ entry "react-scripts" "create-react-app" "build"
    ∷ entry "vue" "vue" "dist"
    ∷ entry "@sveltejs/kit" "sveltekit" "build"
    ∷ entry "astro" "astro" "dist"
    ∷ entry "gatsby" "gatsby" "public"
    ∷ []

abbrev pub server_or_node : (String → Bool) → Detected
server_or_node has =
    if has "express" || (has "fastify" || has "koa")
    then detected "node-server" "."
    else detected "node" "."

abbrev pub entry_or : (String → Bool) → Option FrameworkEntry → Detected
entry_or has none = server_or_node has
entry_or has (some e) = detected e.framework e.output_directory

unfoldable pub detect_node : (String → Bool) → Detected
detect_node has = entry_or has (find? (λ e. has e.dependency) node_frameworks)

abbrev pub starts_with : String → String → Bool
starts_with nil s = true
starts_with (cons c p) nil = false
starts_with (cons c p) (cons d s) = let rest = starts_with p s in nat_eq (code c) (code d) && rest

abbrev pub includes : String → String → Bool
includes nil p = starts_with p nil
includes (cons c s) p = let rest = includes s p in starts_with p (cons c s) || rest

abbrev pub lower_case : String → String
lower_case nil = nil
lower_case (cons c s) = cons (lower c) (lower_case s)

abbrev pub python_of : (String → Bool) → Detected
python_of contains =
    if contains "django"
    then detected "django" "staticfiles"
    else if contains "fastapi"
    then detected "fastapi" "."
    else if contains "flask"
    then detected "flask" "."
    else if contains "streamlit"
    then detected "streamlit" "."
    else detected "python" "."

unfoldable pub detect_python : String → Detected
detect_python text = python_of (includes (lower_case text))

abbrev pub from_requirements : Option String → Detected
from_requirements none = detected "unknown" ""
from_requirements (some text) = detect_python text

abbrev pub from_files : Option (String → Bool) → Option String → Detected
from_files none requirements = from_requirements requirements
from_files (some has) requirements = detect_node has

-- A file that is missing or empty counts as none.
unfoldable pub detect_framework : ⦃json : PackageJson⦄ → Option String → Option String → Detected
detect_framework ⦃json⦄ manifest requirements =
    from_files (Option.bind (non_empty manifest) json.dependencies_of) (non_empty requirements)
