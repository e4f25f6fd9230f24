-- ===== src/LogStream/Refine.antt =====
-- What a viewer has received, whatever the timers, the network and the worker do.
use mathlib.Core.Option
use code2cloud.Prelude.{
  ℕ, String, ◌≤◌, ◌<◌, ◌≡◌, refl, sym, ap, ◌∙◌, subst, true, false, Option, none, some, List, [],
  ◌∷◌, ◌++◌, ◌⊎◌, ◌↔◌, inl, inr, In, In-append, In-append_left, In-append_right, last?, arith,
  Bool-cases, ltb, ◌==◌, eq_iff, and_left,
}
use code2cloud.Schema.{DeploymentStatus, LogSource, LogEntry}
use code2cloud.Prisma.{Prisma}
use code2cloud.Deployments.{LogOptions, LogPage, log_where, log_page}
use code2cloud.LogStream.{
  Viewer, drip, receive_logs, begin_fetch, end_fetch, fail_fetch, log_query, received,
}
use code2cloud.LogStream.Page.{
  IsStrict, IsStrict-append, last-le, last_some, time_of, HasDistinctTimes, IsPage,
}
use code2cloud.LogStream.Follow.{IsOrderly, IsOrderly-end_fetch, received-end_fetch}

-- The log table, the viewer, and the answer that is on its way to it.
pub record Session : Type 0 where
  pub table : List LogEntry
  pub viewer : Viewer
  pub answer : Option LogPage

abbrev pub all_of : Option LogSource → LogOptions
all_of source = record { source = source; after = none; limit = some 200 }

some-inj : {a b : ℕ} → ◌≡◌ {A = Option ℕ} (some a) (some b) → a ≡ b
some-inj e = cc

-- The log was asked for before the cursor.
abbrev pub IsSeen : Option ℕ → ℕ → Type 0
IsSeen none t = ⊥
IsSeen (some c) t = t ≤ c

module _ (id : String) (source : Option LogSource) where
  -- A log is asked for exactly if it matches and was not seen.
  pub asked_or_IsSeen :
      (v : Viewer) (r : LogEntry)
      → log_where id (all_of source) r ≡ true
      → (log_where id (log_query source v) r ≡ true) ⊎ IsSeen v.cursor r.timestamp
  asked_or_IsSeen v r h = by_cursor v.cursor
    where
      by_cursor :
          (c : Option ℕ)
          → (log_where id (record { source = source; after = c; limit = some 200 }) r ≡ true)
            ⊎ IsSeen c r.timestamp
      by_cursor none = inl h
      by_cursor (some c) = elim (Bool-cases (ltb c r.timestamp)) [
        | inl later ↦ inl (ground arith)
        | inr seen ↦ inr (ground arith)
      ]

  pub asked-matches :
      (c : Option ℕ) (r : LogEntry)
      → log_where id (record { source = source; after = c; limit = some 200 }) r ≡ true
      → log_where id (all_of source) r ≡ true
  asked-matches c r h = ground arith

  pub seen-lt-asked :
      (c : Option ℕ) (t : ℕ) (r : LogEntry)
      → IsSeen c t
      → log_where id (record { source = source; after = c; limit = some 200 }) r ≡ true
      → t < r.timestamp
  seen-lt-asked none t r s h = elim s [ ]
  seen-lt-asked (some c) t r s h = ground arith

  pub asked-deployment :
      (o : LogOptions) (r : LogEntry) → log_where id o r ≡ true → r.deployment_id ≡ id
  asked-deployment o r h = (eq_iff r.deployment_id id).0 (and_left (r.deployment_id == id) _ h)

module _ ⦃prisma : Prisma⦄ (interval : ℕ) (id : String) (source : Option LogSource) where
  -- One event. The worker writes logs of a deployment in the order of their times.
  pub data Step (s : Session) : Session → Type 0 where
    write :
        (l : LogEntry)
        → ((r : LogEntry)
            → In r s.table
            → r.deployment_id ≡ l.deployment_id
            → r.timestamp < l.timestamp)
        → Step s (record s { table = s.table ++ l ∷ [] })
    ask :
        (status : DeploymentStatus)
        → s.viewer.is_fetching ≡ false
        → Step s (record s {
          viewer = begin_fetch s.viewer;
          answer = some (log_page s.table status id (log_query source s.viewer));
        })
    arrive :
        (p : LogPage)
        → s.answer ≡ some p
        → Step s (record s { viewer = end_fetch interval p s.viewer; answer = none })
    lose :
        (p : LogPage)
        → s.answer ≡ some p
        → Step s (record s { viewer = fail_fetch s.viewer; answer = none })
    show : Step s (record s { viewer = drip s.viewer })

  pub data Reach (s : Session) : Session → Type 0 where
    here : Reach s s
    next : {t u : Session} → Reach s t → Step t u → Reach s u

  -- What was received is the ascending list of the logs that match, up to the cursor.
  pub record Follows (table : List LogEntry) (v : Viewer) : Type 0 where
    pub orderly : IsOrderly interval v
    pub ascends : IsStrict time_of (received v)
    pub exact :
        (r : LogEntry)
        → In r (received v)
          ↔ (In r table × (log_where id (all_of source) r ≡ true) × IsSeen v.cursor r.timestamp)
    pub reached :
        (c : ℕ)
        → v.cursor ≡ some c
        → (l : LogEntry) × In l table × (l.deployment_id ≡ id) × (l.timestamp ≡ c)

  pub record IsFollowed (s : Session) : Type 0 where
    pub distinct : HasDistinctTimes id s.table
    pub follows : Follows s.table s.viewer
    pub busy : (p : LogPage) → s.answer ≡ some p → s.viewer.is_fetching ≡ true
    pub waiting :
        (p : LogPage) → s.answer ≡ some p → IsPage s.table id (log_query source s.viewer) p

  module _ (table : List LogEntry) (v : Viewer) (p : LogPage) where
    cursor-end_fetch :
        (ls : List LogEntry)
        → p.logs ≡ ls
        → (end_fetch interval p v).cursor ≡ (receive_logs interval ls p.next_cursor v).cursor
    unfolding end_fetch
    cursor-end_fetch ls e = ap (λ x. (receive_logs interval x p.next_cursor v).cursor) e

    module _ (f : Follows table v) (g : IsPage table id (log_query source v) p) where
      -- Either nothing new came, or the cursor is the time of the last new log.
      pub moved :
          ((p.logs ≡ []) × ((end_fetch interval p v).cursor ≡ v.cursor))
          ⊎ ((l : LogEntry) × (last? p.logs ≡ some l)
              × In l p.logs
              × ((end_fetch interval p v).cursor ≡ some l.timestamp))
      moved = by_logs p.logs refl
        where
          by_logs :
              (ls : List LogEntry)
              → p.logs ≡ ls
              → ((p.logs ≡ []) × ((end_fetch interval p v).cursor ≡ v.cursor))
                ⊎ ((l : LogEntry) × (last? p.logs ≡ some l)
                    × In l p.logs
                    × ((end_fetch interval p v).cursor ≡ some l.timestamp))
          by_logs [] e = inl (e, cursor-end_fetch [] e)
          by_logs (x ∷ xs) e =
              let (l, last, member) = last_some time_of x xs in
              let at_end = ap last? e ∙ last in
              inr (
                l,
                at_end,
                subst (In l) (sym e) member,
                cursor-end_fetch (x ∷ xs) e ∙ g.next ∙ ap (Option.map time_of) at_end,
              )

      pub received_now : received (end_fetch interval p v) ≡ received v ++ p.logs
      received_now = received-end_fetch interval p v f.orderly

      exact_to :
          (r : LogEntry)
          → In r (received v) ⊎ In r p.logs
          → In r table
            × (log_where id (all_of source) r ≡ true)
            × IsSeen (end_fetch interval p v).cursor r.timestamp
      exact_to r (inl old) =
          let (member, matches, seen) = (f.exact r).0 old in
          (
            member,
            matches,
            elim moved [
              | inl (empty, same) ↦ subst (λ c. IsSeen c r.timestamp) (sym same) seen
              | inr (l, last, new, at) ↦
                  subst (λ c. IsSeen c r.timestamp) (sym at)
                    (omega (
                      arith,
                      seen-lt-asked id source v.cursor r.timestamp l seen (g.sound l new).0,
                    ))
            ],
          )
      exact_to r (inr new) =
          let (asked, member) = g.sound r new in
          (
            member,
            asked-matches id source v.cursor r asked,
            elim moved [
              | inl (empty, same) ↦ absurd (subst (In r) empty new)
              | inr (l, last, _, at) ↦
                  subst (λ c. IsSeen c r.timestamp) (sym at)
                    (last-le time_of r l p.logs g.ascends new last)
            ],
          )

      exact_from :
          (r : LogEntry)
          → In r table
          → log_where id (all_of source) r ≡ true
          → IsSeen (end_fetch interval p v).cursor r.timestamp
          → In r (received v ++ p.logs)
      exact_from r member matches seen = elim (asked_or_IsSeen id source v r matches) [
        | inr before ↦
            In-append_left r (received v) p.logs ((f.exact r).1 (member, matches, before))
        | inl asked ↦ elim (g.complete r member asked) [
          | inl new ↦ In-append_right r (received v) p.logs new
          | inr later ↦ elim moved [
            | inl (empty, same) ↦
                let old = subst (λ c. IsSeen c r.timestamp) same seen in
                absurd (omega (arith, seen-lt-asked id source v.cursor r.timestamp r old asked))
            | inr (l, last, _, at) ↦
                let bound = subst (λ c. IsSeen c r.timestamp) at seen in
                absurd (omega (arith, bound, later l last))
          ]
        ]
      ]

      reached_now :
          (c : ℕ)
          → (end_fetch interval p v).cursor ≡ some c
          → (l : LogEntry) × In l table × (l.deployment_id ≡ id) × (l.timestamp ≡ c)
      reached_now c e = elim moved [
        | inl (empty, same) ↦ f.reached c (sym same ∙ e)
        | inr (l, last, new, at) ↦
            let (asked, member) = g.sound l new in
            (
              l,
              member,
              asked-deployment id source (log_query source v) l asked,
              some-inj (sym at ∙ e),
            )
      ]

      pub Follows-end_fetch : Follows table (end_fetch interval p v)
      Follows-end_fetch = record {
        orderly = IsOrderly-end_fetch interval p v f.orderly;
        ascends = rw received_now (
            IsStrict-append time_of (received v) p.logs f.ascends g.ascends (λ x y hx hy.
              seen-lt-asked id source v.cursor x.timestamp y ((f.exact x).0 hx).2
                (g.sound y hy).0));
        exact = λ r. (
          λ h. exact_to r (In-append r (received v) p.logs (subst (In r) received_now h)),
          λ (member, matches, seen).
              subst (In r) (sym received_now) (exact_from r member matches seen),
        );
        reached = reached_now;
      }
