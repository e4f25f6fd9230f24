-- ===== src/NewProject/Presets.antt =====
-- apps/web/types/git.ts: what the dialog fills in for a framework.
use code2cloud.Prelude.{String, Bool, ◌==◌, any, List, [], ◌∷◌, Dict}

pub record Preset : Type 0 where
  pub install : String
  pub build : String
  pub run : String
  pub output : String

abbrev preset : String → String → String → String → Preset
preset install build run output = record {
  install = install;
  build = build;
  run = run;
  output = output;
}

abbrev serve_dist : String
serve_dist = "npx --yes serve -s dist -l tcp://0.0.0.0:$PORT"

abbrev serve_build : String
serve_build = "npx --yes serve -s build -l tcp://0.0.0.0:$PORT"

abbrev python_install : String
python_install = "pip install -r requirements.txt"

abbrev pub framework_presets : Dict Preset
framework_presets =
    ("nextjs", preset "npm install" "npm run build" "npm start" ".next")
    ∷ ("nestjs", preset "npm install" "npm run build" "npm run start:prod" "dist")
    ∷ ("nuxt", preset "npm install" "npm run build" "npm run start" ".output/public")
    ∷ ("express", preset "npm install" "" "node index.js" ".")
    ∷ ("fastify", preset "npm install" "" "node app.js" ".")
    ∷ ("node", preset "npm install" "" "npm start" ".")
    ∷ ("vite", preset "npm install" "npm run build" serve_dist "dist")
    ∷ ("vue", preset "npm install" "npm run build" serve_dist "dist")
    ∷ ("create-react-app", preset "npm install" "npm run build" serve_build "build")
    ∷ ("angular", preset "npm install" "npm run build" serve_dist "dist")
    ∷ ("astro", preset "npm install" "npm run build" serve_dist "dist")
    ∷ ("sveltekit", preset "npm install" "npm run build" serve_build "build")
    ∷ (
      "django",
      preset python_install "python manage.py collectstatic --noinput" "gunicorn app.wsgi"
          "staticfiles",
    )
    ∷ ("flask", preset python_install "" "gunicorn app:app" ".")
    ∷ ("fastapi", preset python_install "" "uvicorn main:app --host 0.0.0.0 --port $PORT" ".")
    ∷ ("streamlit", preset python_install "" "streamlit run app.py" ".")
    ∷ ("python", preset python_install "" "python main.py" ".")
    ∷ []

abbrev pub python_frameworks : List String
python_frameworks = "django" ∷ "flask" ∷ "fastapi" ∷ "streamlit" ∷ "python" ∷ []

abbrev pub is_python : String → Bool
is_python framework = any (λ f. f == framework) python_frameworks
