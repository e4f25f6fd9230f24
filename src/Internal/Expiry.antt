-- ===== src/Internal/Expiry.antt =====
-- Which deployments the worker is told to take down.
use code2cloud.Prelude.{
  ℕ, ◌≡◌, refl, sym, ◌∙◌, ap, subst, true, List, [], ◌∷◌, ◌++◌, ◌↔◌, inl, inr, In, In-append,
  In-append_left, In-append_right, In-map, map, arith, and_left, and_right,
}
use code2cloud.Schema.{
  DeploymentStatus, queued, building, deploying, ready, failed, canceled, expired, superseded,
  Deployment, SystemConfig, is_ready,
}
use code2cloud.Prisma.{Prisma}
use code2cloud.Prisma.Laws.{In-filter, filter-In}
use code2cloud.World.{Database, World, Outcome, Act, done, fail, pure, ◌>>=◌}
use code2cloud.World.Laws.{guard_rule}
use code2cloud.Deployments.{project_of_user}
use code2cloud.Internal.{
  is_expired, is_valid_date, minute, invalid_date, ExpiredDeployment, expired_in,
  get_expired_deployments,
}
use code2cloud.Internal.Dates.{
  IsOlder, HasDate, IsOwner, is_before_iff, is_valid_date_iff, project_of_user_iff,
}

-- A READY deployment of a project of the settings' user that started more than their limit ago.
abbrev pub IsPastLimit : Database → ℕ → SystemConfig → Deployment → Type 0
IsPastLimit db now c d =
    IsOwner db c.user_id d.project_id
    × (d.status ≡ ready)
    × IsOlder d.started_at now c.global_ttl_minutes 60000

-- The deployment is past the limit of a user's settings, which the entry carries.
abbrev pub IsOverdue : Database → ℕ → List SystemConfig → ExpiredDeployment → Type 0
IsOverdue db now configs x =
    (c : SystemConfig) × In c configs
    × In x.deployment db.deployments
    × IsPastLimit db now c x.deployment
    × (x.ttl_minutes ≡ c.global_ttl_minutes)

abbrev entry : SystemConfig → Deployment → ExpiredDeployment
entry c d = record { deployment = d; ttl_minutes = c.global_ttl_minutes }

-- What the question for expired deployments may answer.
abbrev pub ExpiryOutcome : World → List SystemConfig → Outcome (List ExpiredDeployment) → Type 0
ExpiryOutcome w cs (done xs w') =
    (w' ≡ w) × ((x : ExpiredDeployment) → In x xs ↔ IsOverdue w.db w.now cs x)
ExpiryOutcome w cs (fail e w') =
    (w' ≡ w) × (c : SystemConfig) × In c cs × ¬ HasDate w.now c.global_ttl_minutes 60000

is_ready_iff : (s : DeploymentStatus) → (is_ready s ≡ true) ↔ (s ≡ ready)
is_ready_iff ready = (λ e. refl, λ e. refl)
is_ready_iff queued = (λ e. cc e, λ e. cc e)
is_ready_iff building = (λ e. cc e, λ e. cc e)
is_ready_iff deploying = (λ e. cc e, λ e. cc e)
is_ready_iff failed = (λ e. cc e, λ e. cc e)
is_ready_iff canceled = (λ e. cc e, λ e. cc e)
is_ready_iff expired = (λ e. cc e, λ e. cc e)
is_ready_iff superseded = (λ e. cc e, λ e. cc e)

is_expired_iff :
    (db : Database) (now : ℕ) (c : SystemConfig) (d : Deployment)
    → (is_expired db now c d ≡ true) ↔ IsPastLimit db now c d
is_expired_iff db now c d = (
  λ e.
      let rest = and_right (project_of_user db c.user_id d.project_id) _ e in
      (
        (project_of_user_iff db c.user_id d.project_id).0 (and_left _ _ e),
        (is_ready_iff d.status).0 (and_left _ _ rest),
        (is_before_iff d.started_at now c.global_ttl_minutes minute).0
            (and_right (is_ready d.status) _ rest),
      ),
  λ (own, on, late).
      rw
        (
          (project_of_user_iff db c.user_id d.project_id).1 own,
          (is_ready_iff d.status).1 on,
          (is_before_iff d.started_at now c.global_ttl_minutes minute).1 late,
        )
        refl,
)

module _ {A B : Type 0} where
  map-In : (f : A → B) (y : B) (xs : List A) → In y (map f xs) → (x : A) × In x xs × (y ≡ f x)
  map-In f y [] h = elim h [ ]
  map-In f y (x ∷ xs) (inl e) = (x, inl refl, e)
  map-In f y (x ∷ xs) (inr h) = let (z, k, e) = map-In f y xs h in (z, inr k, e)

module _ ⦃prisma : Prisma⦄ (w : World) where
  abbrev found : SystemConfig → List Deployment
  found c = prisma.find_many (is_expired w.db w.now c) w.db.deployments

  -- One round adds the entries of its settings to those of the others.
  round-IsOverdue :
      (c : SystemConfig) (cs : List SystemConfig) (xs : List ExpiredDeployment)
      → ((x : ExpiredDeployment) → In x xs ↔ IsOverdue w.db w.now cs x)
      → (x : ExpiredDeployment)
      → In x (map (entry c) (found c) ++ xs) ↔ IsOverdue w.db w.now (c ∷ cs) x
  round-IsOverdue c cs xs later x = (
    λ h. elim (In-append x (map (entry c) (found c)) xs h) [
      | inl here ↦
          let (d, k, e) = map-In (entry c) x _ here in
          let (late, member) =
            In-filter (is_expired w.db w.now c) d w.db.deployments
              (rw (prisma.find_many_lem (is_expired w.db w.now c) w.db.deployments) at k) in
          rw e (c, inl refl, member, (is_expired_iff w.db w.now c d).0 late, refl)
      | inr there ↦
          let (c', k, member, late, ttl) = (later x).0 there in (c', inr k, member, late, ttl)
    ],
    λ (c', k, member, late, ttl). elim k [
      | inl same ↦ In-append_left x (map (entry c) (found c)) xs (here c' same member late ttl)
      | inr other ↦
          In-append_right x (map (entry c) (found c)) xs
            ((later x).1 (c', other, member, late, ttl))
    ],
  )
    where
      here :
          (c' : SystemConfig)
          → c' ≡ c
          → In x.deployment w.db.deployments
          → IsPastLimit w.db w.now c' x.deployment
          → x.ttl_minutes ≡ c'.global_ttl_minutes
          → In x (map (entry c) (found c))
      here c' same member late ttl =
          let listed : In x.deployment (found c) =
            rw (prisma.find_many_lem (is_expired w.db w.now c) w.db.deployments) (
              filter-In (is_expired w.db w.now c) x.deployment w.db.deployments
                ((is_expired_iff w.db w.now c x.deployment).1 (rw same at late)) member) in
          let limit : x.ttl_minutes ≡ c.global_ttl_minutes =
            ttl ∙ ap (λ (c : SystemConfig). c.global_ttl_minutes) same in
          subst (λ m. In (record x { ttl_minutes = m }) (map (entry c) (found c))) (sym limit)
            (In-map (entry c) x.deployment (found c) listed)

  expired_in_lem : (cs : List SystemConfig) → ExpiryOutcome w cs (expired_in cs w)
  unfolding expired_in
  expired_in_lem [] = (refl, λ x. (λ h. elim h [ ], λ (c, k, _, _, _). elim k [ ]))
  expired_in_lem (c ∷ cs) =
      guard_rule (ExpiryOutcome w (c ∷ cs)) invalid_date w
        (is_valid_date w.now c.global_ttl_minutes minute) (after c cs)
        (λ bad. (
          refl,
          c,
          inl refl,
          λ dated.
              let e = (is_valid_date_iff w.now c.global_ttl_minutes 60000).1 dated in
              ground (arith, bad, e),
        ))
        (λ fine. by_outcome (expired_in cs w) refl (expired_in_lem cs))
    where
      after : SystemConfig → List SystemConfig → Act (List ExpiredDeployment)
      after c cs = expired_in cs >>= λ later. pure (map (entry c) (found c) ++ later)

      by_outcome :
          (o : Outcome (List ExpiredDeployment))
          → expired_in cs w ≡ o
          → ExpiryOutcome w cs o
          → ExpiryOutcome w (c ∷ cs) (after c cs w)
      by_outcome (done xs w') e (same, later) = rw (e, ◌>>=◌) (same, round-IsOverdue c cs xs later)
      by_outcome (fail x w') e (same, c', k, bad) = rw (e, ◌>>=◌) (same, c', inr k, bad)

  -- The worker is told of exactly the deployments past their owner's limit: those that are READY, of
  -- a project of a user with settings, and started more than the settings' minutes ago, each with
  -- that limit. Nothing is written; the question fails only if some limit leads to no date.
  pub get_expired_deployments_lem : ExpiryOutcome w w.db.configs (get_expired_deployments w)
  unfolding get_expired_deployments
  get_expired_deployments_lem = expired_in_lem w.db.configs
