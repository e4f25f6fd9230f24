-- ===== src/LogStream/Steps.antt =====
-- The view of a log over any sequence of events: what is received is kept exact.
use code2cloud.Prelude.{
  ℕ, String, ◌<◌, ◌+◌, ◌≡◌, refl, sym, ap, ◌∙◌, subst, Bool, true, false, Option, none, some, List,
  [], ◌∷◌, ◌++◌, ◌↔◌, inl, inr, In, In-append_left, In-snoc, length, filter, arith, Bool-cases,
  nat_eq, ◌&&◌, ◌==◌, eq_iff, if◌then◌else◌, and_left, and_right,
}
use code2cloud.Schema.{LogSource, LogEntry}
use code2cloud.Prisma.{Prisma}
use code2cloud.Deployments.{LogOptions, LogPage, log_where}
use code2cloud.Deployments.Paging.{In-last}
use code2cloud.LogStream.{
  Viewer, new_viewer, drip, begin_fetch, end_fetch, fail_fetch, log_query, received,
}
use code2cloud.LogStream.Page.{IsStrict, time_of, HasDistinctTimes, IsPage, log_page-IsPage}
use code2cloud.LogStream.Follow.{
  IsOrderly, IsOrderly-drip, received-drip, cursor-drip, is_fetching-drip,
}
use code2cloud.LogStream.Refine.{
  Session, IsSeen, all_of, Step, write, ask, arrive, lose, show, Reach, here, next, Follows,
  IsFollowed, Follows-end_fetch, asked-deployment,
}

module _ {Row : Type 0} (p : Row → Bool) where
  count_snoc :
      (x : Row) (t : List Row)
      → length (filter p (t ++ x ∷ [])) ≡ length (filter p t) + (if p x then 1 else 0)
  count_snoc x [] = ground arith
  count_snoc x (y ∷ t) = ground (arith, count_snoc x t)

  count_none : (t : List Row) → ((r : Row) → In r t → p r ≡ false) → length (filter p t) ≡ 0
  count_none [] h = refl
  count_none (x ∷ t) h = rw (h x (inl refl)) (count_none t (λ r k. h r (inr k)))

-- A log that comes after those of its deployment.
module _ (l : LogEntry) (table : List LogEntry)
    (after : (r : LogEntry)
      → In r table
      → r.deployment_id ≡ l.deployment_id
      → r.timestamp < l.timestamp) where
  HasDistinctTimes-snoc :
      (id : String) → HasDistinctTimes id table → HasDistinctTimes id (table ++ l ∷ [])
  HasDistinctTimes-snoc id distinct k = elim (Bool-cases (at l)) [
    | inr other ↦ rw (count_snoc at l table, other) (omega (arith, distinct k))
    | inl hit ↦
        rw (count_snoc at l table, hit, count_none at table (λ r member. unlike r member hit))
          (omega arith)
  ]
    where
      at : LogEntry → Bool
      at r = (r.deployment_id == id) && nat_eq r.timestamp k

      unlike : (r : LogEntry) → In r table → at l ≡ true → at r ≡ false
      unlike r member hit = elim (Bool-cases (at r)) [
        | inr no_hit ↦ no_hit
        | inl both ↦
            let rid : r.deployment_id ≡ id =
              (eq_iff _ _).0 (and_left (r.deployment_id == id) _ both) in
            let lid : l.deployment_id ≡ id =
              (eq_iff _ _).0 (and_left (l.deployment_id == id) _ hit) in
            let rt = and_right (r.deployment_id == id) _ both in
            let lt = and_right (l.deployment_id == id) _ hit in
            absurd (ground (arith, after r member (rid ∙ sym lid)))
      ]

  IsPage-snoc :
      (id : String) (source : Option LogSource) (o : LogOptions) (p : LogPage)
      → IsPage table id o p
      → IsPage (table ++ l ∷ []) id o p
  IsPage-snoc id source o p g = record {
    ascends = g.ascends;
    sound =
        λ r h. let (asked, member) = g.sound r h in (asked, In-append_left r table (l ∷ []) member);
    next = g.next;
    complete = λ r h asked. elim (In-snoc r l table h) [
      | inl old ↦ g.complete r old asked
      | inr new ↦ inr (λ m end.
          let (hit, member) = g.sound m (In-last m p.logs end) in
          let mine = asked-deployment id source o m hit in
          let also = asked-deployment id source o r asked in
          let before =
            after m member (mine ∙ sym also ∙ ap (λ (x : LogEntry). x.deployment_id) new) in
          subst (λ x. m.timestamp < x.timestamp) (sym new) before)
    ];
  }

  Follows-snoc :
      ⦃prisma : Prisma⦄ (interval : ℕ) (id : String) (source : Option LogSource) (v : Viewer)
      → Follows interval id source table v
      → Follows interval id source (table ++ l ∷ []) v
  Follows-snoc interval id source v f = record {
    orderly = f.orderly;
    ascends = f.ascends;
    exact = λ r. (
      λ h.
          let (member, matches, seen) = (f.exact r).0 h in
          (In-append_left r table (l ∷ []) member, matches, seen),
      λ (member, matches, seen). elim (In-snoc r l table member) [
        | inl old ↦ (f.exact r).1 (old, matches, seen)
        | inr new ↦ absurd (unseen v.cursor refl r new matches seen)
      ],
    );
    reached = λ c e.
        let (m, member, mine, at) = f.reached c e in
        (m, In-append_left m table (l ∷ []) member, mine, at);
  }
    where
      unseen :
          (c : Option ℕ)
          → v.cursor ≡ c
          → (r : LogEntry) → r ≡ l
          → log_where id (all_of source) r ≡ true
          → IsSeen c r.timestamp
          → ⊥
      unseen none e r new matches seen = seen
      unseen (some c) e r new matches seen =
          let (m, member, mine, at) = f.reached c e in
          let also = asked-deployment id source (all_of source) r matches in
          let before =
            after m member (mine ∙ sym also ∙ ap (λ (x : LogEntry). x.deployment_id) new) in
          let time = ap (λ (x : LogEntry). x.timestamp) new in omega (arith, before, at, seen, time)

some-inj : {a b : LogPage} → ◌≡◌ {A = Option LogPage} (some a) (some b) → a ≡ b
some-inj e = cc

pub begin_fetch-eq :
    (v : Viewer) → v.is_fetching ≡ false → begin_fetch v ≡ record v { is_fetching = true }
unfolding begin_fetch
begin_fetch-eq v idle = by_flag v.is_fetching idle
  where
    by_flag :
        (b : Bool)
        → b ≡ false
        → (if b then v else record v { is_fetching = true }) ≡ record v { is_fetching = true }
    by_flag b e = rw e refl

none_left : {p : LogPage} → ◌≡◌ {A = Option LogPage} none (some p) → ⊥
none_left e = cc

module _ ⦃prisma : Prisma⦄ (interval : ℕ) (id : String) (source : Option LogSource) where
  -- A viewer that only differs in the flags follows as well.
  pub Follows-flags :
      (table : List LogEntry) (v w : Viewer)
      → Follows interval id source table v
      → received w ≡ received v
      → w.cursor ≡ v.cursor
      → IsOrderly interval w
      → Follows interval id source table w
  Follows-flags table v w f same at o = record {
    orderly = o;
    ascends = rw same f.ascends;
    exact = λ r. (
      λ h.
          let (member, matches, seen) = (f.exact r).0 (subst (In r) same h) in
          (member, matches, subst (λ c. IsSeen c r.timestamp) (sym at) seen),
      λ (member, matches, seen).
          subst (In r) (sym same)
            ((f.exact r).1 (member, matches, subst (λ c. IsSeen c r.timestamp) at seen)),
    );
    reached = λ c e. f.reached c (sym at ∙ e);
  }

  Step-IsFollowed :
      {s t : Session}
      → Step interval id source s t
      → IsFollowed interval id source s
      → IsFollowed interval id source t
  unfolding fail_fetch end_fetch
  Step-IsFollowed {s} (write l after) h = record {
    distinct = HasDistinctTimes-snoc l s.table after id h.distinct;
    follows = Follows-snoc l s.table after interval id source s.viewer h.follows;
    busy = h.busy;
    waiting =
        λ p e. IsPage-snoc l s.table after id source (log_query source s.viewer) p (h.waiting p e);
  }
  Step-IsFollowed {s} (ask status idle) h = rw (begin_fetch-eq s.viewer idle) (record {
    distinct = h.distinct;
    follows =
        Follows-flags s.table s.viewer (record s.viewer { is_fetching = true }) h.follows refl refl
          (record { first = h.follows.orderly.first; direct = h.follows.orderly.direct });
    busy = λ p e. refl;
    waiting = λ p e.
        subst (IsPage s.table id (log_query source s.viewer)) (some-inj e)
          (log_page-IsPage s.table status id (log_query source s.viewer) h.distinct refl);
  })
  Step-IsFollowed {s} (arrive p at) h = record {
    distinct = h.distinct;
    follows = Follows-end_fetch interval id source s.table s.viewer p h.follows (h.waiting p at);
    busy = λ q e. absurd (none_left e);
    waiting = λ q e. absurd (none_left e);
  }
  Step-IsFollowed {s} (lose p at) h = record {
    distinct = h.distinct;
    follows =
        Follows-flags s.table s.viewer (fail_fetch s.viewer) h.follows refl refl
          (record { first = h.follows.orderly.first; direct = h.follows.orderly.direct });
    busy = λ q e. absurd (none_left e);
    waiting = λ q e. absurd (none_left e);
  }
  Step-IsFollowed {s} show h = record {
    distinct = h.distinct;
    follows =
        Follows-flags s.table s.viewer (drip s.viewer) h.follows (received-drip s.viewer)
          (cursor-drip s.viewer) (IsOrderly-drip interval s.viewer h.follows.orderly);
    busy = λ p e. is_fetching-drip s.viewer ∙ h.busy p e;
    waiting = λ p e.
        subst (λ c. IsPage s.table id (record { source = source; after = c; limit = some 200 }) p)
          (sym (cursor-drip s.viewer)) (h.waiting p e);
  }

  Reach-IsFollowed :
      {s t : Session}
      → IsFollowed interval id source s
      → Reach interval id source s t
      → IsFollowed interval id source t
  Reach-IsFollowed h here = h
  Reach-IsFollowed h (next r s) = Step-IsFollowed s (Reach-IsFollowed h r)

  abbrev pub opened : List LogEntry → Session
  opened table = record { table = table; viewer = new_viewer; answer = none }

  pub opened-IsFollowed :
      (table : List LogEntry)
      → HasDistinctTimes id table
      → IsFollowed interval id source (opened table)
  opened-IsFollowed table distinct = record {
    distinct = distinct;
    follows = record {
      orderly = record { first = λ _. refl; direct = λ _. refl };
      ascends = tt;
      exact = λ r. (λ h. absurd h, λ (member, matches, seen). absurd seen);
      reached = λ c e. absurd (no_time e);
    };
    busy = λ p e. absurd (none_left e);
    waiting = λ p e. absurd (none_left e);
  }
    where
      no_time : {c : ℕ} → ◌≡◌ {A = Option ℕ} none (some c) → ⊥
      no_time e = cc

  -- A viewer that opens the log of a deployment, whose logs have distinct times and are written in
  -- their order, refines the sorted log: after any sequence of polls, answers, failures, drips and
  -- writes, what it has received, shown entries first, ascends strictly, and is exactly the logs of
  -- the table that match and are not later than the cursor.
  pub Reach-received_exact :
      (table : List LogEntry)
      → HasDistinctTimes id table
      → {t : Session} → Reach interval id source (opened table) t
      → IsStrict time_of (received t.viewer)
        × ((r : LogEntry)
            → In r (received t.viewer) ↔ (
                In r t.table
                × (log_where id (all_of source) r ≡ true)
                × IsSeen t.viewer.cursor r.timestamp))
  Reach-received_exact table distinct r =
      let h = Reach-IsFollowed (opened-IsFollowed table distinct) r in
      (h.follows.ascends, h.follows.exact)
