-- ===== src/Projects/Remove.antt =====
-- The removal of a project.
use code2cloud.Prelude.{
  String, ◌≡◌, refl, sym, ap, ◌∙◌, Bool, true, false, not, List, [], ◌∷◌, ◌++◌, ◌⊎◌, inl, inr, In,
  arith, map, length, nat_eq, Bool-cases, Option-cases, if◌then◌else◌,
}
use mathlib.Core.Bool.{false≢true}
use mathlib.Core.List.{append-nil, append_assoc}
use code2cloud.Schema.{Project, Deployment, is_in_progress}
use code2cloud.Jobs.{Command, lpush_cleanup, set_cancel}
use code2cloud.Prisma.{Prisma}
use code2cloud.World.{
  World, Outcome, done, fail, thrown, Act, require, for_each, when, deliver, ◌>>=◌,
}
use code2cloud.Queues.{publish_cancel_signal}
use code2cloud.Deployments.{is_project_of, find_project}
use code2cloud.Projects.{active_deployments, delete_cascade, release_active, remove}

-- One cancel signal for each deployment that is in progress.
abbrev pub signals : List Deployment → List Command
signals [] = []
signals (d ∷ ds) =
    let rest = signals ds in if is_in_progress d.status then set_cancel d.id 300 ∷ rest else rest

-- The job by which the worker releases what the deployments hold, if there are any.
abbrev pub cleanup_of : Project → List Deployment → List Command
cleanup_of p [] = []
cleanup_of p (d ∷ ds) =
    lpush_cleanup (record {
      project_id = p.id;
      project_name = p.name;
      active_deployment_ids = map (λ (d : Deployment). d.id) (d ∷ ds);
    })
    ∷ []

abbrev signal_one : Deployment → Act (Unit {0})
signal_one d = when (is_in_progress d.status) (publish_cancel_signal d.id)

abbrev with_sent : World → List Command → World
with_sent w cs = record w { sent = w.sent ++ cs }

deliver_up :
    (b : Bool) (c : Command) (w : World) → b ≡ true → deliver b c w ≡ done tt (with_sent w (c ∷ []))
deliver_up true c w up = refl
deliver_up false c w up = absurd (false≢true up)

deliver_down :
    (b : Bool) (c : Command) (w : World)
    → b ≡ false
    → deliver b c w ≡ fail (thrown "Redis connection error") w
deliver_down true c w down = absurd (false≢true (sym down))
deliver_down false c w down = refl

signal_all_up :
    (ds : List Deployment) (w : World)
    → w.redis_up ≡ true
    → for_each ds signal_one w ≡ done tt (with_sent w (signals ds))
signal_all_up [] w up = ap (λ s. done tt (record w { sent = s })) (sym (append-nil w.sent))
signal_all_up (d ∷ ds) w up = elim (Bool-cases (is_in_progress d.status)) [
  | inl running ↦
      rw (running, ◌>>=◌, deliver_up w.redis_up (set_cancel d.id 300) w up)
        (signal_all_up ds (with_sent w (set_cancel d.id 300 ∷ [])) up
          ∙ ap (λ s. done tt (record w { sent = s }))
              (append_assoc w.sent (set_cancel d.id 300 ∷ []) (signals ds)))
  | inr over ↦ rw over (signal_all_up ds w up)
]

-- With Redis down the first signal fails, so nothing is written before it.
signal_all_down :
    (ds : List Deployment) (w : World)
    → w.redis_up ≡ false
    → ((signals ds ≡ []) × (for_each ds signal_one w ≡ done tt w))
      ⊎ (for_each ds signal_one w ≡ fail (thrown "Redis connection error") w)
signal_all_down [] w down = inl (refl, refl)
signal_all_down (d ∷ ds) w down = elim (Bool-cases (is_in_progress d.status)) [
  | inl running ↦ inr (rw (running, down) refl)
  | inr over ↦ rw (over) (signal_all_down ds w down)
]

module _ ⦃prisma : Prisma⦄ (p : Project) where
  some_active : (d : Deployment) (ds : List Deployment) → not (nat_eq (length (d ∷ ds)) 0) ≡ true
  some_active d ds = ground arith

  release_up :
      (ds : List Deployment) (w : World)
      → w.redis_up ≡ true
      → release_active p ds w ≡ done tt (with_sent (with_sent w (signals ds)) (cleanup_of p ds))
  unfolding release_active
  release_up [] w up =
      ap (λ s. done tt (record w { sent = s }))
        (sym (append-nil w.sent) ∙ sym (append-nil (w.sent ++ [])))
  release_up (d ∷ ds) w up =
      rw (signal_all_up (d ∷ ds) w up, ◌>>=◌)
        (rw (some_active d ds) (
          ap (λ o. elim o [ done _ w' ↦ done tt w' | fail _ w' ↦ done tt w' ])
            (deliver_up w.redis_up _ (with_sent w (signals (d ∷ ds))) up)))

  release_down :
      (ds : List Deployment) (w : World)
      → w.redis_up ≡ false
      → ((signals ds ≡ []) × (release_active p ds w ≡ done tt w))
        ⊎ (release_active p ds w ≡ fail (thrown "Redis connection error") w)
  unfolding release_active
  release_down [] w down = inl (refl, refl)
  release_down (d ∷ ds) w down = elim (signal_all_down (d ∷ ds) w down) [
    | inl (quiet, ran) ↦ inl (
      quiet,
      rw (ran, ◌>>=◌)
          (rw (some_active d ds) (
            ap (λ o. elim o [ done _ w' ↦ done tt w' | fail _ w' ↦ done tt w' ])
              (deliver_down w.redis_up _ w down))),
    )
    | inr failed ↦ inr (rw (failed, ◌>>=◌) refl)
  ]

-- What a removal may answer, and the world that it leaves.
abbrev pub RemoveOutcome : ⦃prisma : Prisma⦄ → String → String → World → Outcome Project → Type 0
RemoveOutcome id user_id w (done p w') =
    let active = active_deployments id w.db in
    In p w.db.projects
    × (is_project_of user_id id p ≡ true)
    × (((w.redis_up ≡ true)
          × (w' ≡ record w {
            db = delete_cascade id w.db;
            sent = (w.sent ++ signals active) ++ cleanup_of p active;
          }))
        ⊎ ((w.redis_up ≡ false)
            × (signals active ≡ [])
            × (w' ≡ record w { db = delete_cascade id w.db })))
RemoveOutcome id user_id w (fail e w') = w' ≡ w

module _ ⦃prisma : Prisma⦄ (id user_id : String) (w : World) where
  remove_found :
      (p : Project)
      → In p w.db.projects
      → is_project_of user_id id p ≡ true
      → find_project user_id id w ≡ done p w
      → RemoveOutcome id user_id w (remove id user_id w)
  unfolding remove
  remove_found p member owned found = elim (Bool-cases w.redis_up) [
    | inl up ↦
        rw (found, ◌>>=◌)
          (rw (release_up p (active_deployments id w.db) w up, ◌>>=◌)
            (member, owned, inl (up, refl)))
    | inr down ↦ elim (release_down p (active_deployments id w.db) w down) [
      | inl (quiet, ran) ↦
          rw (found, ◌>>=◌) (rw (ran, ◌>>=◌) (member, owned, inr (down, quiet, refl)))
      | inr failed ↦ rw (found, ◌>>=◌) (rw (failed, ◌>>=◌) refl)
    ]
  ]

  -- A project is removed only by its owner, with all that belongs to it; before that a cancel
  -- signal is sent for each of its deployments that is in progress, and one cleanup job that names
  -- its active deployments, if it has any. When it throws, nothing is written and nothing is sent;
  -- with Redis down it throws unless no deployment is in progress, and then no cleanup is queued.
  pub remove_lem : RemoveOutcome id user_id w (remove id user_id w)
  unfolding remove find_project
  remove_lem = elim (Option-cases (prisma.find_first (is_project_of user_id id) w.db.projects)) [
    | inl missing ↦ rw (missing, ◌>>=◌, require) refl
    | inr (p, found) ↦
        let (owned, member) = prisma.find_first_some _ _ _ found in
        remove_found p member owned (rw (found, require) refl)
  ]
