-- ===== src/Lifecycle/Requests.antt =====
-- The requests keep at most one deployment of each project in progress.
use mathlib.Core.Bool.{false≢true}
use code2cloud.Prelude.{
  ℕ, String, ◌≡◌, refl, sym, ◌∙◌, ap, subst, Bool, true, false, Option, none, some, List, [], ◌∷◌,
  ◌++◌, inl, inr, In, head?, head?-take_one, arith, Bool-cases, Option-cases, ◌==◌, eq_iff,
  and_left, Dict,
}
use code2cloud.Schema.{canceled, Deployment, Project, is_in_progress}
use code2cloud.Prisma.{Prisma, change_where}
use code2cloud.Prisma.Laws.{change_where-In}
use code2cloud.World.{World, Outcome, done, fail, world_of}
use code2cloud.Encryption.{Crypto}
use code2cloud.Deployments.{has_id, cancel}
use code2cloud.Deployments.Cancel.{CancelOutcome, canceled_row, after_cancel, cancel_lem}
use code2cloud.Github.{GithubApi, CommitData}
use code2cloud.Deployments.Trigger.{is_busy, latest_deployment, create}
use code2cloud.Deployments.Trigger.Steps.{
  IsDeployable, CreateOutcome, manual_row, recorded, create_lem,
}
use code2cloud.Webhooks.{
  TriggerOptions, is_current, relations_of, decrypted_env, trigger_deployment,
}
use code2cloud.Webhooks.Trigger.{
  after_current, started, webhook_row, trigger_deployment-eq-done, trigger_deployment-eq-fail,
}
use code2cloud.Lifecycle.OneLive.{
  OneLive, IsIdle, IsPast, IsCalm, OneLive-change_where, OneLive-append, OneLive-append_ne,
  live_first,
}

-- Every project has at most one deployment in progress, which is its latest.
abbrev pub AllOneLive : World → Type 0
AllOneLive w = (q : String) → OneLive q w.db.deployments

-- Marking a row as canceled starts nothing.
canceled-IsCalm : (w : World) (d r : Deployment) → IsCalm r (canceled_row w d r)
canceled-IsCalm w d r = record { project = refl; start = refl; status = λ e. absurd (false≢true e) }

module _ ⦃prisma : Prisma⦄ where
  -- Whether it answers or throws, a cancellation keeps at most one deployment of each project in
  -- progress.
  pub cancel-AllOneLive :
      (user_id id : String) (w : World) → AllOneLive w → AllOneLive (world_of (cancel user_id id w))
  cancel-AllOneLive user_id id w h = keep (cancel user_id id w) (cancel_lem user_id id w)
    where
      marked : (d : Deployment) → AllOneLive (after_cancel w d)
      marked d q =
          OneLive-change_where q w.db.deployments (has_id d.id) (canceled_row w d)
            (λ r _ _. canceled-IsCalm w d r) (h q)

      keep : (o : Outcome Deployment) → CancelOutcome user_id id w o → AllOneLive (world_of o)
      keep (done x w') (d, _, _, e) = rw e (marked d)
      keep (fail x w') (inl e) = rw e h
      keep (fail x w') (inr (d, _, _, e)) = rw e (marked d)

-- Marking the current deployment, whatever it is, starts nothing.
after_current-OneLive :
    (q : String) (w : World) (c : Option Deployment)
    → OneLive q w.db.deployments
    → OneLive q (after_current w c).db.deployments
after_current-OneLive q w none h = h
after_current-OneLive q w (some d) h = elim (Bool-cases (is_in_progress d.status)) [
  | inr over ↦ rw over h
  | inl live ↦ rw live (
      OneLive-change_where q w.db.deployments (has_id d.id) (λ r. record r { status = canceled })
        (λ r _ _. record { project = refl; start = refl; status = λ e. absurd (false≢true e) }) h)
]

now-after_current : (w : World) (c : Option Deployment) → (after_current w c).now ≡ w.now
now-after_current w none = refl
now-after_current w (some d) = ground arith

IsPast-after_current :
    (q : String) (w : World) (c : Option Deployment) (now : ℕ)
    → IsPast q w.db.deployments now
    → IsPast q (after_current w c).db.deployments now
IsPast-after_current q w none now h = h
IsPast-after_current q w (some d) now h = elim (Bool-cases (is_in_progress d.status)) [
  | inr over ↦ rw over h
  | inl live ↦ rw live (λ e ein eq.
      let (x, xin, origin) =
        change_where-In (has_id d.id) (λ r. record r { status = canceled }) e w.db.deployments
          ein in
      ground (arith, h x xin, origin, eq))
]

-- Whether a deployment that was found is in progress.
abbrev live_of : Option Deployment → Bool
live_of none = false
live_of (some d) = is_in_progress d.status

abbrev mark_canceled : Deployment → Deployment
mark_canceled r = record r { status = canceled }

-- Marking the only deployment of the project that can be in progress leaves none.
IsIdle-marked :
    (q : String) (t : List Deployment) (c : Deployment)
    → ((x : Deployment) → In x t → x.project_id ≡ q → is_in_progress x.status ≡ true → c ≡ x)
    → IsIdle q (change_where (has_id c.id) mark_canceled t)
IsIdle-marked q t c only d din dq =
    let (x, xin, e) = change_where-In (has_id c.id) mark_canceled d t din in
    elim (Bool-cases (has_id c.id x)) [
      | inl hit ↦
          let same : d ≡ mark_canceled x = rw hit at e in
          ap (λ (y : Deployment). is_in_progress y.status) same
      | inr miss ↦
          let same : d ≡ x = rw miss at e in
          elim (Bool-cases (is_in_progress x.status)) [
            | inr over ↦ ap (λ (y : Deployment). is_in_progress y.status) same ∙ over
            | inl live ↦
                let of_q : x.project_id ≡ q =
                  ap (λ (y : Deployment). y.project_id) (sym same) ∙ dq in
                let ids : x.id ≡ c.id =
                  ap (λ (y : Deployment). y.id) (sym (only x xin of_q live)) in
                absurd (false≢true (sym miss ∙ (eq_iff x.id c.id).1 ids))
          ]
    ]

-- If the current deployment is the only one of the project that can be in progress, none is once
-- it is marked.
IsIdle-after_current :
    (q : String) (w : World) (c : Option Deployment)
    → ((x : Deployment)
        → In x w.db.deployments
        → x.project_id ≡ q
        → is_in_progress x.status ≡ true
        → c ≡ some x)
    → IsIdle q (after_current w c).db.deployments
IsIdle-after_current q w none only = λ d din dq. elim (Bool-cases (is_in_progress d.status)) [
  | inr over ↦ over
  | inl live ↦ absurd (ground (arith, only d din dq live))
]
IsIdle-after_current q w (some c) only = elim (Bool-cases (is_in_progress c.status)) [
  | inr over ↦ rw over (λ d din dq. elim (Bool-cases (is_in_progress d.status)) [
    | inr k ↦ k
    | inl live ↦ absurd (false≢true (sym over ∙ ap live_of (only d din dq live) ∙ live))
  ])
  | inl live ↦
      rw live (IsIdle-marked q w.db.deployments c (λ x xin xq l. ground (arith, only x xin xq l)))
]

module _ ⦃prisma : Prisma⦄ ⦃crypto : Crypto⦄ (p : Project) (opts : TriggerOptions) (w : World) where
  current_lem :
      OneLive p.id w.db.deployments
      → (x : Deployment) → In x w.db.deployments
      → x.project_id ≡ p.id
      → is_in_progress x.status ≡ true
      → head? (relations_of w.db p).deployments ≡ some x
  unfolding relations_of
  current_lem one x xin xq live =
      head?-take_one _
      ∙ live_first p.id w.db.deployments (is_current p.id) x one
          (λ y h. (eq_iff _ _).0 (and_left _ _ h)) xin (ground (arith, eq_iff x.project_id p.id))
          live

  started-AllOneLive :
      (env : Dict String)
      → AllOneLive w
      → IsPast p.id w.db.deployments w.now
      → AllOneLive (
          started
            (after_current w (head? (relations_of w.db p).deployments))
            (relations_of w.db p)
            opts
            env)
  unfolding relations_of
  started-AllOneLive env h past q =
      let c = head? (relations_of w.db p).deployments in
      let v = after_current w c in
      let row = webhook_row v (relations_of w.db p) opts in
      elim (Bool-cases (p.id == q)) [
        | inr other ↦
            OneLive-append_ne q v.db.deployments row
              (λ e. false≢true (sym other ∙ (eq_iff p.id q).1 e))
              (after_current-OneLive q w c (h q))
        | inl same ↦
            let e : p.id ≡ q = (eq_iff p.id q).0 same in
            subst (λ k. OneLive k (v.db.deployments ++ row ∷ [])) e
              (OneLive-append p.id v.db.deployments row refl
                (IsIdle-after_current p.id w c (λ x xin xq l. current_lem (h p.id) x xin xq l))
                (rw (now-after_current w c) (IsPast-after_current p.id w c w.now past)))
      ]

  -- A push for one project keeps at most one deployment of each project in progress, if every
  -- deployment of the project that is in the table started before the push, and Redis is up.
  pub trigger_deployment-AllOneLive :
      AllOneLive w
      → IsPast p.id w.db.deployments w.now
      → w.redis_up ≡ true
      → AllOneLive (world_of (trigger_deployment (relations_of w.db p) opts w))
  trigger_deployment-AllOneLive h past up =
      let r = relations_of w.db p in
      elim (Option-cases (decrypted_env [] r.env_vars)) [
        | inl broken ↦
            rw (trigger_deployment-eq-fail r opts w up broken)
              (λ q. after_current-OneLive q w (head? r.deployments) (h q))
        | inr (env, decrypted) ↦
            rw (trigger_deployment-eq-done r opts env w up decrypted)
              (started-AllOneLive env h past)
      ]

module _ ⦃prisma : Prisma⦄ ⦃crypto : Crypto⦄ ⦃github : GithubApi⦄ (user_id project_id : String)
    (w : World) where
  deployable-IsIdle :
      (p : Project)
      → OneLive project_id w.db.deployments
      → IsDeployable user_id project_id w p
      → IsIdle project_id w.db.deployments
  unfolding latest_deployment
  deployable-IsIdle p one (_, _, idle) d din dq = elim (Bool-cases (is_in_progress d.status)) [
    | inr over ↦ over
    | inl live ↦
        let first =
          live_first project_id w.db.deployments (λ (x : Deployment). x.project_id == project_id) d
            one (λ x h. (eq_iff _ _).0 h) din ((eq_iff _ _).1 dq) live in
        absurd (false≢true (sym idle ∙ ap is_busy first ∙ live))
  ]

  recorded-AllOneLive :
      (p : Project) (commit : CommitData)
      → AllOneLive w
      → IsPast project_id w.db.deployments w.now
      → IsDeployable user_id project_id w p
      → AllOneLive (recorded w user_id p commit)
  recorded-AllOneLive p commit h past fine q =
      let of_p : p.id ≡ project_id = (eq_iff _ _).0 (and_left _ _ fine.0) in
      let row = manual_row w user_id p commit in
      elim (Bool-cases (project_id == q)) [
        | inr other ↦
            OneLive-append_ne q w.db.deployments row
              (λ e. false≢true (sym other ∙ (eq_iff project_id q).1 (sym of_p ∙ e))) (h q)
        | inl same ↦
            let e : project_id ≡ q = (eq_iff project_id q).0 same in
            subst (λ k. OneLive k (w.db.deployments ++ row ∷ [])) e
              (OneLive-append project_id w.db.deployments row of_p
                (deployable-IsIdle p (h project_id) fine) past)
      ]

  -- `create` keeps at most one deployment of each project in progress, whether it answers or
  -- throws, if every deployment of the project that is in the table started before the request.
  pub create-AllOneLive :
      AllOneLive w
      → IsPast project_id w.db.deployments w.now
      → AllOneLive (world_of (create user_id project_id w))
  create-AllOneLive h past = keep (create user_id project_id w) (create_lem user_id project_id w)
    where
      keep :
          (o : Outcome Deployment) → CreateOutcome user_id project_id w o → AllOneLive (world_of o)
      keep (done d w') (p, commit, _, fine, _, e) = rw e (recorded-AllOneLive p commit h past fine)
      keep (fail x w') (inl e) = rw e h
      keep (fail x w') (inr (p, commit, fine, _, e)) =
          rw e (recorded-AllOneLive p commit h past fine)
