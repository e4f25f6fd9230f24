-- ===== src/DeploymentPage/Controls.antt =====
-- apps/web/app/dashboard/deployments/[id]/page.tsx and apps/web/hooks/use-deployments.ts: what the
-- page offers for a deployment, and how often it asks for it.
use code2cloud.Prelude.{
  ℕ, String, Bool, true, ◌||◌, ◌≡◌, ◌↔◌, refl, sym, ap, ◌∙◌, Option, none, some, In, any, [], ◌∷◌,
  ◌==◌, if◌then◌else◌, eq_iff, and_left,
}
use code2cloud.Schema.{
  DeploymentStatus, queued, building, deploying, ready, failed, canceled, expired, superseded,
  Deployment, is_in_progress,
}
use code2cloud.Prisma.{Prisma}
use code2cloud.World.{World, Outcome, done, fail}
use code2cloud.Deployments.{is_owned, status_text, cancel}
use code2cloud.Deployments.Cancel.{
  CancelOutcome, canceled_row, after_cancel, signalled, cancel_lem, cancel-eq-done,
}

pub data Dot : Type 0 where
  check cross spinner circle : Dot

-- `StatusDot`
abbrev pub status_dot : DeploymentStatus → Dot
status_dot ready = check
status_dot expired = check
status_dot failed = cross
status_dot canceled = cross
status_dot building = spinner
status_dot deploying = spinner
status_dot _ = circle

abbrev pub is_building : DeploymentStatus → Bool
is_building s = status_text s == "BUILDING" || status_text s == "DEPLOYING"

unfoldable pub can_cancel : DeploymentStatus → Bool
can_cancel s = is_building s || status_text s == "QUEUED"

-- `['QUEUED', 'BUILDING', 'DEPLOYING'].includes(data.status)`, in milliseconds; 0 is never.
unfoldable pub refresh_interval : Option DeploymentStatus → ℕ
refresh_interval none = 0
refresh_interval (some s) =
    if any (λ t. t == status_text s) ("QUEUED" ∷ "BUILDING" ∷ "DEPLOYING" ∷ []) then 2000 else 0

can_cancel-is_in_progress : (s : DeploymentStatus) → can_cancel s ≡ is_in_progress s
unfolding can_cancel
can_cancel-is_in_progress queued = refl
can_cancel-is_in_progress building = refl
can_cancel-is_in_progress deploying = refl
can_cancel-is_in_progress ready = refl
can_cancel-is_in_progress failed = refl
can_cancel-is_in_progress canceled = refl
can_cancel-is_in_progress expired = refl
can_cancel-is_in_progress superseded = refl

refresh_interval-is_in_progress :
    (s : DeploymentStatus) → refresh_interval (some s) ≡ (if is_in_progress s then 2000 else 0)
unfolding refresh_interval
refresh_interval-is_in_progress queued = refl
refresh_interval-is_in_progress building = refl
refresh_interval-is_in_progress deploying = refl
refresh_interval-is_in_progress ready = refl
refresh_interval-is_in_progress failed = refl
refresh_interval-is_in_progress canceled = refl
refresh_interval-is_in_progress expired = refl
refresh_interval-is_in_progress superseded = refl

module _ ⦃prisma : Prisma⦄ (user_id id : String) (w : World) (d : Deployment)
    (member : In d w.db.deployments) (owned : is_owned w.db user_id id d ≡ true)
    (key : (r : Deployment) → In r w.db.deployments → r.id ≡ id → r ≡ d) where
  accepted-running :
      (o : Outcome Deployment)
      → CancelOutcome user_id id w o
      → (r : Deployment) (w' : World) → o ≡ done r w'
      → is_in_progress d.status ≡ true
  accepted-running (done r w') (x, (among, mine, running), _, _) s v e =
      let same : x ≡ d = key x among ((eq_iff x.id id).0 (and_left (x.id == id) _ mine)) in
      ap (λ (y : Deployment). is_in_progress y.status) (sym same) ∙ running
  accepted-running (fail x w') h s v e = absurd (cc)

  -- The page offers to cancel a deployment of the user exactly when the API accepts it while Redis is
  -- up: the row is then canceled and the worker signalled. In the same statuses the page asks for the
  -- deployment every two seconds, and in no other.
  pub can_cancel_lem :
      w.redis_up ≡ true
      → ((can_cancel d.status ≡ true)
          ↔ (cancel user_id id w ≡ done (canceled_row w d d) (signalled (after_cancel w d) id)))
        × (refresh_interval (some d.status) ≡ (if can_cancel d.status then 2000 else 0))
  can_cancel_lem up = (
    (
      λ offered.
          cancel-eq-done user_id id w d
            (member, owned, sym (can_cancel-is_in_progress d.status) ∙ offered) key up,
      λ accepted.
          can_cancel-is_in_progress d.status
          ∙ accepted-running (cancel user_id id w) (cancel_lem user_id id w) _ _ accepted,
    ),
    refresh_interval-is_in_progress d.status
        ∙ ap (λ b. if b then 2000 else 0) (sym (can_cancel-is_in_progress d.status)),
  )
