-- ===== src/Deployments/Cancel.antt =====
-- Cancellation of a deployment by its owner.
use Prim.Native.String.{◌++◌ as append_text}
use mathlib.Core.Bool.{false≢true}
use code2cloud.Prelude.{
  sym, ◌∙◌, eq_iff, and_left, String, ◌≡◌, refl, true, false, none, some, [], ◌∷◌, ◌++◌, ◌⊎◌, inl,
  inr, In, arith, Option-cases, Bool-cases,
}
use code2cloud.Prelude.Int.{floor_div_sub}
use code2cloud.Schema.{canceled, Deployment, is_in_progress}
use code2cloud.Jobs.{set_cancel}
use code2cloud.Prisma.{Prisma, change_where}
use code2cloud.World.{World, Outcome, done, fail, not_found, thrown, require, ◌>>=◌, bad_request}
use code2cloud.Deployments.{is_owned, has_id, status_text, find_owned, update_deployment, cancel}

-- The row that a cancellation at a time leaves.
abbrev pub canceled_row : World → Deployment → Deployment → Deployment
canceled_row w d r = record r {
  status = canceled;
  finished_at = some w.now;
  duration = some (floor_div_sub w.now d.started_at 1000);
}

-- The world after the row of a deployment is canceled, and after the signal to the worker is sent.
abbrev pub after_cancel : World → Deployment → World
after_cancel w d = record w {
  db = record w.db { deployments = change_where (has_id d.id) (canceled_row w d) w.db.deployments };
}

abbrev pub signalled : World → String → World
signalled w id = record w { sent = w.sent ++ set_cancel id 300 ∷ [] }

-- The row that a request may cancel.
abbrev pub IsCancellable : String → String → World → Deployment → Type 0
IsCancellable user_id id w d =
    In d w.db.deployments × (is_owned w.db user_id id d ≡ true) × (is_in_progress d.status ≡ true)

-- What a cancellation may answer, and the world that it leaves.
abbrev pub CancelOutcome : String → String → World → Outcome Deployment → Type 0
CancelOutcome user_id id w (done updated w') =
    (d : Deployment) × IsCancellable user_id id w d
    × (updated ≡ canceled_row w d d)
    × (w' ≡ signalled (after_cancel w d) id)
CancelOutcome user_id id w (fail e w') =
    (w' ≡ w)
    ⊎ ((d : Deployment) × IsCancellable user_id id w d
        × (w.redis_up ≡ false)
        × (w' ≡ after_cancel w d))

module _ ⦃prisma : Prisma⦄ (user_id id : String) (w : World) where
  pub find_owned-some :
      (d : Deployment)
      → prisma.find_first (is_owned w.db user_id id) w.db.deployments ≡ some d
      → find_owned user_id id w ≡ done d w
  unfolding find_owned
  find_owned-some d e = rw (e, require)

  pub find_owned-none :
      prisma.find_first (is_owned w.db user_id id) w.db.deployments ≡ none
      → find_owned user_id id w ≡ fail (not_found "Deployment not found") w
  unfolding find_owned
  find_owned-none e = rw (e, require)

  module _ (d : Deployment)
      (e : prisma.find_first (is_owned w.db user_id id) w.db.deployments ≡ some d) where
    cancel_over :
        is_in_progress d.status ≡ false
        → cancel user_id id w
          ≡ fail
              (bad_request
                (append_text "Deployment cannot be cancelled in status: " (status_text d.status)))
              w
    unfolding cancel
    cancel_over over = ground (arith, find_owned-some d e)

    cancel-signalled :
        is_in_progress d.status ≡ true
        → w.redis_up ≡ true
        → cancel user_id id w ≡ done (canceled_row w d d) (signalled (after_cancel w d) id)
    unfolding cancel update_deployment
    cancel-signalled running up = ground (
      arith,
      find_owned-some d e,
      prisma.update_lem (has_id d.id) (canceled_row w d) w.db.deployments,
    )

    cancel_unsignalled :
        is_in_progress d.status ≡ true
        → w.redis_up ≡ false
        → cancel user_id id w ≡ fail (thrown "Redis connection error") (after_cancel w d)
    unfolding cancel update_deployment
    cancel_unsignalled running down = ground (
      arith,
      find_owned-some d e,
      prisma.update_lem (has_id d.id) (canceled_row w d) w.db.deployments,
    )

    cancel_found : CancelOutcome user_id id w (cancel user_id id w)
    cancel_found =
        let (owned, member) = prisma.find_first_some _ _ _ e in
        elim (Bool-cases (is_in_progress d.status)) [
          | inr over ↦ rw (cancel_over over) (inl refl)
          | inl running ↦ elim (Bool-cases w.redis_up) [
            | inl up ↦ rw (cancel-signalled running up) (d, (member, owned, running), refl, refl)
            | inr down ↦
                rw (cancel_unsignalled running down) (inr (d, (member, owned, running), down, refl))
          ]
        ]

  -- A cancellation answers with a row only for an in-progress deployment of a project of the user:
  -- its row is written as canceled, with the time and the duration, no other row is, and the
  -- worker is signalled. When it throws, the world is as before, or Redis is down and the row of
  -- such a deployment is written with no signal sent.
  pub cancel_lem : CancelOutcome user_id id w (cancel user_id id w)
  unfolding cancel
  cancel_lem = elim (Option-cases (prisma.find_first (is_owned w.db user_id id) w.db.deployments)) [
    | inl missing ↦ rw (find_owned-none missing, ◌>>=◌) (inl refl)
    | inr (d, found) ↦ cancel_found d found
  ]

  -- While Redis is up, a deployment in progress is canceled for the owner of its project, if its id
  -- is its own.
  pub cancel-eq-done :
      (d : Deployment)
      → IsCancellable user_id id w d
      → ((r : Deployment) → In r w.db.deployments → r.id ≡ id → r ≡ d)
      → w.redis_up ≡ true
      → cancel user_id id w ≡ done (canceled_row w d d) (signalled (after_cancel w d) id)
  cancel-eq-done d (member, owned, running) key up =
      elim (Option-cases (prisma.find_first (is_owned w.db user_id id) w.db.deployments)) [
        | inl missing ↦
            absurd (false≢true (sym (prisma.find_first_none _ _ d missing member) ∙ owned))
        | inr (r, found) ↦
            let (mine, among) = prisma.find_first_some _ _ _ found in
            let same : r ≡ d = key r among ((eq_iff _ _).0 (and_left _ _ mine)) in
            cancel-signalled d (rw same at found) running up
      ]
