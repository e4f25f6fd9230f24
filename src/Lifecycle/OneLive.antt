-- ===== src/Lifecycle/OneLive.antt =====
-- At most one deployment of a project is in progress, and it is the latest one: how the writes of
-- the services to the table of deployments keep this.
use mathlib.Core.Bool.{false≢true}
use code2cloud.Prelude.{
  ℕ, String, ◌≤◌, ◌<◌, ◌≡◌, refl, sym, ◌∙◌, ap, ◌≢◌, Bool, true, false, some, List, [], ◌∷◌, ◌++◌,
  ◌⊎◌, inl, inr, In, In-snoc, subst, head?, if◌then◌else◌, arith, Bool-cases,
}
use code2cloud.Schema.{Deployment, is_in_progress}
use code2cloud.Prisma.{Prisma, change_where, IsDescending}
use code2cloud.Prisma.Laws.{change_where-In, In-filter, filter-In}

-- A deployment of the project that is in progress started after every other one of the project.
pub record OneLive (project_id : String) (t : List Deployment) : Type 0 where
  pub latest :
      (d e : Deployment)
      → In d t
      → In e t
      → d.project_id ≡ project_id
      → e.project_id ≡ project_id
      → is_in_progress d.status ≡ true
      → (e ≡ d) ⊎ (e.started_at < d.started_at)

-- Hence two deployments of the project that are in progress are one.
pub live_unique :
    (project_id : String) (t : List Deployment)
    → OneLive project_id t
    → (d e : Deployment) → In d t
    → In e t
    → d.project_id ≡ project_id
    → e.project_id ≡ project_id
    → is_in_progress d.status ≡ true
    → is_in_progress e.status ≡ true
    → d ≡ e
live_unique q t h d e din ein dq eq dl el = elim (h.latest d e din ein dq eq dl) [
  | inl same ↦ sym same
  | inr before ↦ elim (h.latest e d ein din eq dq el) [
    | inl same ↦ same
    | inr after ↦ absurd (omega arith)
  ]
]

-- No deployment of the project is in progress.
abbrev pub IsIdle : String → List Deployment → Type 0
IsIdle project_id t =
    (d : Deployment) → In d t → d.project_id ≡ project_id → is_in_progress d.status ≡ false

-- Every deployment of the project started before the time.
abbrev pub IsPast : String → List Deployment → ℕ → Type 0
IsPast project_id t now = (e : Deployment) → In e t → e.project_id ≡ project_id → e.started_at < now

-- A change of a row starts nothing: it moves no row to another project or time, and puts no row
-- in progress.
pub record IsCalm (x y : Deployment) : Type 0 where
  pub project : y.project_id ≡ x.project_id
  pub start : y.started_at ≡ x.started_at
  pub status : is_in_progress y.status ≡ true → is_in_progress x.status ≡ true

module _ (q : String) (t : List Deployment) where
  pub OneLive-change_where :
      (p : Deployment → Bool) (f : Deployment → Deployment)
      → ((r : Deployment) → In r t → p r ≡ true → IsCalm r (f r))
      → OneLive q t
      → OneLive q (change_where p f t)
  OneLive-change_where p f calm h = record {
    latest = λ d e din ein dq eq live.
        let (x, xin, xe) = change_where-In p f d t din in
        let (y, yin, ye) = change_where-In p f e t ein in
        let cx : IsCalm x d = subst (IsCalm x) (sym xe) (each x xin) in
        let cy : IsCalm y e = subst (IsCalm y) (sym ye) (each y yin) in
        elim (h.latest x y xin yin (sym cx.project ∙ dq) (sym cy.project ∙ eq) (cx.status live)) [
          | inl same ↦ inl (ye ∙ ap (λ r. if p r then f r else r) same ∙ sym xe)
          | inr before ↦ inr (omega (arith, cx.start, cy.start))
        ];
  }
    where
      each : (x : Deployment) → In x t → IsCalm x (if p x then f x else x)
      each x xin = elim (Bool-cases (p x)) [
        | inl e ↦ rw e (calm x xin e)
        | inr e ↦ rw e (record { project = refl; start = refl; status = λ s. s })
      ]

  pub OneLive-append :
      (n : Deployment)
      → n.project_id ≡ q
      → IsIdle q t
      → IsPast q t n.started_at
      → OneLive q (t ++ n ∷ [])
  OneLive-append n nq idle past = record {
    latest = λ d e din ein dq eq live. elim (In-snoc d n t din) [
      | inl old ↦ absurd (false≢true (sym (idle d old dq) ∙ live))
      | inr new ↦ elim (In-snoc e n t ein) [
        | inl old ↦ inr (rw new (past e old eq))
        | inr new' ↦ inl (new' ∙ sym new)
      ]
    ];
  }

  pub OneLive-append_ne :
      (n : Deployment) → n.project_id ≢ q → OneLive q t → OneLive q (t ++ n ∷ [])
  OneLive-append_ne n nq h = record {
    latest = λ d e din ein dq eq live. elim (In-snoc d n t din) [
      | inr new ↦ absurd (nq (ap (λ (x : Deployment). x.project_id) (sym new) ∙ dq))
      | inl old ↦ elim (In-snoc e n t ein) [
        | inr new ↦ absurd (nq (ap (λ (x : Deployment). x.project_id) (sym new) ∙ eq))
        | inl old' ↦ h.latest d e old old' dq eq live
      ]
    ];
  }

-- A row of a table in descending order of the start does not start after the first.
head_latest :
    (r : Deployment) (xs : List Deployment)
    → IsDescending (λ (d : Deployment). d.started_at) xs
    → In r xs
    → (h : Deployment) × (head? xs ≡ some h) × In h xs × (r.started_at ≤ h.started_at)
head_latest r [] s m = elim m [ ]
head_latest r (x ∷ []) s (inl same) = (x, refl, inl refl, rw same (omega arith))
head_latest r (x ∷ []) s (inr m) = elim m [ ]
head_latest r (x ∷ y ∷ ys) (le, s) (inl same) = (x, refl, inl refl, rw same (omega arith))
head_latest r (x ∷ y ∷ ys) (le, s) (inr m) =
    let (h, first, _, bound) = head_latest r (y ∷ ys) s m in
    (x, refl, inl refl, ground (arith, first, bound, le))

module _ ⦃prisma : Prisma⦄ (q : String) (t : List Deployment) (p : Deployment → Bool) where
  -- The rows that a where selects, latest first.
  abbrev pub latest_first : List Deployment
  latest_first = prisma.order_desc (λ (d : Deployment). d.started_at) (prisma.find_many p t)

  latest_first_sound : (r : Deployment) → In r latest_first → (p r ≡ true) × In r t
  latest_first_sound r h =
      In-filter p r t (rw (prisma.find_many_lem p t) at ((prisma.order_desc_same _ _ r).0 h))

  -- The deployment in progress, if the where selects it among those of the project, is the first.
  pub live_first :
      (r : Deployment)
      → OneLive q t
      → ((x : Deployment) → p x ≡ true → x.project_id ≡ q)
      → In r t
      → p r ≡ true
      → is_in_progress r.status ≡ true
      → head? latest_first ≡ some r
  live_first r one within rin holds live =
      let m : In r latest_first =
        (prisma.order_desc_same _ _ r).1
          (rw (prisma.find_many_lem p t) (filter-In p r t holds rin)) in
      let (h, first, hin, bound) = head_latest r latest_first (prisma.order_desc_sorted _ _) m in
      let (hp, ht) = latest_first_sound h hin in
      elim (one.latest r h rin ht (within r holds) (within h hp) live) [
        | inl same ↦ first ∙ ap some same
        | inr before ↦ absurd (omega arith)
      ]
