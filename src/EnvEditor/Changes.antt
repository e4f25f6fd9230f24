-- ===== src/EnvEditor/Changes.antt =====
-- apps/web/components/project/EnvVarsPanel.tsx: what the mark of unsaved changes says, and what an
-- import does to the variables.
use code2cloud.Prelude.{
  ℕ, zero, String, suc, Bool, ◌&&◌, map, and_left, and_right, not-true, true, false, not, ◌==◌, ◌≡◌,
  refl, sym, subst, Option, none, some, if◌then◌else◌, is_blank, List, [], ◌∷◌, ◌++◌, filter, find?,
  any, eq_iff, inl, inr, Bool-cases, arith, is_blank,
}
use code2cloud.Schema.{EnvironmentType}
use code2cloud.EnvEditor.Line.{Parsed, parse_lines, split_lines}
use code2cloud.EnvEditor.State.{
  EditedVar, Editor, Action, answer_save, taken, after_answer, finish_save, value, opened,
  import_file, save, discard, toggle_visibility, toggle_all, change, toggle_env, add_empty,
  remove_one, undo, import_parsed, save_env_changes, act, run, has_var_id, is_known, to_vars,
}

-- What a list of variables says, whatever their ids are.
abbrev pub contents : List EditedVar → List (String × (String × List EnvironmentType))
contents vars = map (λ (v : EditedVar). (v.key, (v.value, v.targets))) vars

abbrev pub IsMarked : Editor → Type 0
IsMarked e = e.dirty ≡ false → contents e.env_vars ≡ contents e.saved

abbrev pub is_undo : Action → Bool
is_undo (undo v) = true
is_undo _ = false

-- Neither the variables nor the requests to save are changed by the user.
abbrev pub is_idle : Action → Bool
is_idle (toggle_visibility id) = true
is_idle toggle_all = true
is_idle (answer_save n accepted) = true
is_idle _ = false

-- No removal is taken back, and while a save waits for its answer nothing is edited, discarded or
-- saved.
abbrev pub is_quiet : List (List EditedVar) → Action → Bool
is_quiet [] a = not (is_undo a)
is_quiet (p ∷ ps) a = is_idle a

-- With one save waiting, the cache has the variables of the screen.
abbrev Fits : List (List EditedVar) → Editor → Type 0
Fits [] e = IsMarked e
Fits (p ∷ []) e =
    (contents e.env_vars ≡ contents e.saved) × (e.dirty ≡ false → contents e.env_vars ≡ contents p)
Fits (p ∷ q ∷ ps) e = ⊥

Fits-IsMarked : (ps : List (List EditedVar)) (e : Editor) → Fits ps e → IsMarked e
Fits-IsMarked [] e h = h
Fits-IsMarked (p ∷ []) e (same, _) = λ _. same
Fits-IsMarked (p ∷ q ∷ ps) e h = absurd h

finish-Fits :
    (ps : List (List EditedVar)) (n : ℕ) (accepted : Bool) (e : Editor)
    → e.pending ≡ ps
    → Fits ps e
    → let e' = after_answer accepted (taken n ps) e in Fits e'.pending e'
finish-Fits [] n accepted e none_wait h = rw none_wait h
finish-Fits (p ∷ []) zero true e wait (same, before) = λ _. same
finish-Fits (p ∷ []) zero false e wait (same, before) = before
finish-Fits (p ∷ []) (suc n) accepted e wait h = rw wait h
finish-Fits (p ∷ q ∷ ps) n accepted e wait h = absurd h

save-Fits :
    (e : Editor)
    → e.pending ≡ []
    → Fits [] e
    → Fits (save_env_changes e).pending (save_env_changes e)
unfolding save_env_changes
save-Fits e none_wait h = elim (Bool-cases (any (λ (v : EditedVar). is_blank v.key) e.env_vars)) [
  | inl blank ↦ rw (blank, none_wait) h
  | inr named ↦ rw (named, none_wait) (refl, h)
]

module _ (random_uuid : ℕ → String) where
  import_parsed-IsMarked :
      (ps : List Parsed) (e : Editor) → IsMarked e → IsMarked (import_parsed random_uuid ps e)
  unfolding import_parsed
  import_parsed-IsMarked [] e h = h
  import_parsed-IsMarked (p ∷ ps) e h = λ d. cc d

  remove-IsMarked :
      (id : String) (e : Editor) → IsMarked e → IsMarked (act random_uuid (remove_one id) e)
  unfolding act
  remove-IsMarked id e h =
      elim (find? (has_var_id id) e.env_vars)
        as (λ o. IsMarked (elim o [
          | none ↦ e
          | some v ↦ record e {
            env_vars = filter (λ w. not (has_var_id id w)) e.env_vars;
            dirty = true;
          }
        ])) [ none ↦ h | some v ↦ λ d. cc d ]

  abbrev is_save : Action → Bool
  is_save save = true
  is_save (answer_save n accepted) = true
  is_save _ = false

  act-IsMarked :
      (a : Action) (e : Editor)
      → is_undo a ≡ false
      → is_save a ≡ false
      → IsMarked e
      → IsMarked (act random_uuid a e)
  unfolding act
  act-IsMarked (import_file text) e u s h =
      import_parsed-IsMarked (parse_lines (split_lines text)) e h
  act-IsMarked save e u s h = cc s
  act-IsMarked (answer_save n accepted) e u s h = cc s
  act-IsMarked discard e u s h = λ d. refl
  act-IsMarked (toggle_visibility id) e u s h = h
  act-IsMarked toggle_all e u s h = h
  act-IsMarked (change id f text) e u s h = λ d. cc d
  act-IsMarked (toggle_env id env) e u s h = λ d. cc d
  act-IsMarked add_empty e u s h = λ d. cc d
  act-IsMarked (remove_one id) e u s h = remove-IsMarked id e h
  act-IsMarked (undo v) e u s h = cc u

  import_parsed-pending :
      (ps : List Parsed) (e : Editor) → (import_parsed random_uuid ps e).pending ≡ e.pending
  unfolding import_parsed
  import_parsed-pending [] e = refl
  import_parsed-pending (p ∷ ps) e = refl

  act-pending :
      (a : Action) (e : Editor) → is_save a ≡ false → (act random_uuid a e).pending ≡ e.pending
  unfolding act
  act-pending (import_file text) e s = import_parsed-pending (parse_lines (split_lines text)) e
  act-pending save e s = cc s
  act-pending (answer_save n accepted) e s = cc s
  act-pending discard e s = refl
  act-pending (toggle_visibility id) e s = refl
  act-pending toggle_all e s = refl
  act-pending (change id f text) e s = refl
  act-pending (toggle_env id env) e s = refl
  act-pending add_empty e s = refl
  act-pending (remove_one id) e s =
      elim (find? (has_var_id id) e.env_vars) as (λ o. (removed o).pending ≡ e.pending) [
        | none ↦ refl
        | some v ↦ refl
      ]
    where
      removed : Option EditedVar → Editor
      removed o = elim o [
        | none ↦ e
        | some v ↦ record e {
          env_vars = filter (λ w. not (has_var_id id w)) e.env_vars;
          dirty = true;
        }
      ]
  act-pending (undo v) e s = refl

  -- While a save waits, the actions that are left do not touch what `Fits` is about.
  waiting-Fits :
      (a : Action) (p : List EditedVar) (ps : List (List EditedVar)) (e : Editor)
      → is_idle a ≡ true
      → is_save a ≡ false
      → Fits (p ∷ ps) e
      → Fits (p ∷ ps) (act random_uuid a e)
  unfolding act
  waiting-Fits (toggle_visibility id) p [] e i s h = h
  waiting-Fits toggle_all p [] e i s h = h
  waiting-Fits a p (q ∷ ps) e i s h = absurd h
  waiting-Fits (import_file text) p [] e i s h = cc i
  waiting-Fits save p [] e i s h = cc i
  waiting-Fits (answer_save n accepted) p [] e i s h = cc s
  waiting-Fits discard p [] e i s h = cc i
  waiting-Fits (change id f text) p [] e i s h = cc i
  waiting-Fits (toggle_env id env) p [] e i s h = cc i
  waiting-Fits add_empty p [] e i s h = cc i
  waiting-Fits (remove_one id) p [] e i s h = cc i
  waiting-Fits (undo v) p [] e i s h = cc i

  other-Fits :
      (a : Action) (ps : List (List EditedVar)) (e : Editor)
      → is_save a ≡ false
      → is_quiet ps a ≡ true
      → Fits ps e
      → Fits ps (act random_uuid a e)
  other-Fits a [] e s q h = act-IsMarked a e (not-true (is_undo a) q) s h
  other-Fits a (p ∷ ps) e s q h = waiting-Fits a p ps e q s h

  save_of-Fits :
      (ps : List (List EditedVar)) (e : Editor)
      → e.pending ≡ ps
      → is_quiet ps save ≡ true
      → Fits ps e
      → let e' = act random_uuid save e in Fits e'.pending e'
  unfolding act
  save_of-Fits [] e wait q h = save-Fits e wait h
  save_of-Fits (p ∷ ps) e wait q h = cc q

  keep_pending :
      (a : Action) (e : Editor)
      → is_save a ≡ false
      → is_quiet e.pending a ≡ true
      → Fits e.pending e
      → let e' = act random_uuid a e in Fits e'.pending e'
  keep_pending a e s q h =
      subst (λ ps. Fits ps (act random_uuid a e)) (sym (act-pending a e s))
        (other-Fits a e.pending e s q h)

  act-Fits :
      (a : Action) (e : Editor)
      → is_quiet e.pending a ≡ true
      → Fits e.pending e
      → let e' = act random_uuid a e in Fits e'.pending e'
  unfolding act finish_save
  act-Fits save e q h = save_of-Fits e.pending e refl q h
  act-Fits (answer_save n accepted) e q h = finish-Fits e.pending n accepted e refl h
  act-Fits (import_file text) e q h = keep_pending (import_file text) e refl q h
  act-Fits discard e q h = keep_pending discard e refl q h
  act-Fits (toggle_visibility id) e q h = keep_pending (toggle_visibility id) e refl q h
  act-Fits toggle_all e q h = keep_pending toggle_all e refl q h
  act-Fits (change id f text) e q h = keep_pending (change id f text) e refl q h
  act-Fits (toggle_env id env) e q h = keep_pending (toggle_env id env) e refl q h
  act-Fits add_empty e q h = keep_pending add_empty e refl q h
  act-Fits (remove_one id) e q h = keep_pending (remove_one id) e refl q h
  act-Fits (undo v) e q h = keep_pending (undo v) e refl q h

  -- All actions of a run are quiet in the state that they find.
  abbrev pub are_quiet : List Action → Editor → Bool
  are_quiet [] e = true
  are_quiet (a ∷ rest) e = is_quiet e.pending a && are_quiet rest (act random_uuid a e)

  run-Fits :
      (actions : List Action) (e : Editor)
      → are_quiet actions e ≡ true
      → Fits e.pending e
      → let e' = run random_uuid actions e in Fits e'.pending e'
  run-Fits [] e q h = h
  run-Fits (a ∷ rest) e q h =
      run-Fits rest (act random_uuid a e) (and_right (is_quiet e.pending a) _ q)
        (act-Fits a e (and_left _ _ q) h)

  -- After any actions of the editor from a state in which no save waits, among them saves whose answers
  -- come later and accept or refuse, but without taking back a removal, and without editing,
  -- discarding or saving while a save waits for its answer: where the screen has no mark of unsaved
  -- changes, its variables are those that the saves have left in the cache, up to their ids, if it
  -- was so at the start.
  pub run-IsMarked :
      (actions : List Action) (e : Editor)
      → e.pending ≡ []
      → are_quiet actions e ≡ true
      → IsMarked e
      → IsMarked (run random_uuid actions e)
  run-IsMarked actions e none_wait q h = Fits-IsMarked _ _ (run-Fits actions e q (rw none_wait h))

-- The value under a key, on the screen and in a file: the first one.
abbrev pub value_of : String → List EditedVar → Option String
value_of k [] = none
value_of k (v ∷ vs) = let rest = value_of k vs in if v.key == k then some v.value else rest

abbrev pub value_in : String → List Parsed → Option String
value_in k [] = none
value_in k (p ∷ ps) = let rest = value_in k ps in if p.key == k then some p.value else rest

value_of-unknown : (k : String) (vs : List EditedVar) → is_known vs k ≡ false → value_of k vs ≡ none
value_of-unknown k [] h = refl
value_of-unknown k (v ∷ vs) h = ground (arith, h, value_of-unknown k vs)

module _ (random_uuid : ℕ → String) where
  value_of-fresh :
      (k : String) (old : List EditedVar) (n : ℕ) (ps : List Parsed)
      → value_of k
          (to_vars random_uuid n (filter (λ (p : Parsed). not (is_known old p.key)) ps) ++ old)
        ≡ (if is_known old k then value_of k old else value_in k ps)
  value_of-fresh k old n [] = ground (arith, value_of-unknown k old)
  value_of-fresh k old n (p ∷ ps) = elim (Bool-cases (is_known old p.key)) [
    | inl known ↦ rw known (ground (arith, known, value_of-fresh k old n ps, eq_iff p.key k))
    | inr new ↦ rw new (ground (arith, new, value_of-fresh k old (suc n) ps, eq_iff p.key k))
  ]

  -- An import of a .env file gives every key that the editor has no variable for the first value that
  -- the file has for it, and leaves the value of every key that it has.
  pub import_file_lem :
      (text : String) (e : Editor) (k : String)
      → value_of k (act random_uuid (import_file text) e).env_vars ≡ (
          if is_known e.env_vars k
          then value_of k e.env_vars
          else value_in k (parse_lines (split_lines text)))
  unfolding act
  import_file_lem text e k = after (parse_lines (split_lines text))
    where
      after :
          (ps : List Parsed)
          → value_of k (import_parsed random_uuid ps e).env_vars
            ≡ (if is_known e.env_vars k then value_of k e.env_vars else value_in k ps)
      after [] = value_of-fresh k e.env_vars e.ids []
      after (p ∷ ps) = value_of-fresh k e.env_vars e.ids (p ∷ ps)

-- An edit while a save waits loses its mark: where the save is accepted, the screen shows no unsaved
-- change and has another value than the cache.
pub edit_while_saving :
    (random_uuid : ℕ → String) (v : EditedVar) (text : String)
    → is_blank v.key ≡ false
    → let e' =
        run random_uuid
          (save ∷ change v.id value text ∷ answer_save 0 true ∷ [])
          (opened (v ∷ [])) in
      (e'.dirty ≡ false)
      × (contents e'.env_vars ≡ (v.key, (text, v.targets)) ∷ [])
      × (contents e'.saved ≡ (v.key, (v.value, v.targets)) ∷ [])
unfolding act save_env_changes finish_save
edit_while_saving random_uuid v text named =
    rw (named, (eq_iff v.id v.id).1 refl) (refl, refl, refl)
