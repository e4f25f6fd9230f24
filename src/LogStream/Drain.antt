-- ===== src/LogStream/Drain.antt =====
-- How much of a log is received, and when.
use code2cloud.Prelude.{
  ℕ, String, ◌≤◌, ◌<◌, ◌≡◌, refl, subst, Bool, true, false, Option, some, List, [], ◌∷◌, ◌⊎◌, ◌↔◌,
  inl, inr, In, length, filter, arith, Bool-cases, if◌then◌else◌,
}
use code2cloud.Schema.{DeploymentStatus, LogSource, LogEntry}
use code2cloud.Prisma.{Prisma}
use code2cloud.Prisma.Laws.{In-filter, filter-In}
use code2cloud.Deployments.{LogPage, log_where, log_page}
use code2cloud.LogStream.{Viewer, begin_fetch, end_fetch, log_query, received, poll}
use code2cloud.LogStream.Page.{HasDistinctTimes, IsPage, log_page-IsPage, log_page_nonempty}
use code2cloud.LogStream.Refine.{
  all_of, Follows, Follows-end_fetch, asked_or_IsSeen, seen-lt-asked, asked-matches, moved,
}
use code2cloud.LogStream.Steps.{Follows-flags, begin_fetch-eq}

module _ {Row : Type 0} where
  -- A stronger test keeps fewer rows if it loses one.
  length-filter_lt :
      (p q : Row → Bool) (x : Row) (t : List Row)
      → ((r : Row) → p r ≡ true → q r ≡ true)
      → In x t
      → q x ≡ true
      → p x ≡ false
      → length (filter p t) < length (filter q t)
  length-filter_lt p q x [] h k qx px = elim k [ ]
  length-filter_lt p q x (y ∷ t) h (inl e) qx px =
      let qy : q y ≡ true = subst (λ r. q r ≡ true) e qx in
      let py : p y ≡ false = subst (λ r. p r ≡ false) e px in
      rw (qy, py) (omega (arith, length-filter_le t))
    where
      length-filter_le : (t : List Row) → length (filter p t) ≤ length (filter q t)
      length-filter_le [] = omega arith
      length-filter_le (z ∷ t) = ground (arith, h z, length-filter_le t)
  length-filter_lt p q x (y ∷ t) h (inr k) qx px =
      ground (arith, h y, length-filter_lt p q x t h k qx px)

  empty_or_member : (t : List Row) → (length t ≡ 0) ⊎ ((r : Row) × In r t)
  empty_or_member [] = inl refl
  empty_or_member (x ∷ t) = inr (x, inl refl)

module _ ⦃prisma : Prisma⦄ (interval : ℕ) (table : List LogEntry) (status : DeploymentStatus)
    (id : String) (source : Option LogSource) where
  abbrev pub asked_at : Option ℕ → LogEntry → Bool
  asked_at c = log_where id (record { source = source; after = c; limit = some 200 })

  -- The logs that are still to be asked for.
  abbrev pub left : Option ℕ → ℕ
  left c = length (filter (asked_at c) table)

  -- A cursor on a log that was asked for leaves fewer.
  left_lt :
      (v : Viewer) (l : LogEntry)
      → In l table
      → asked_at v.cursor l ≡ true
      → left (some l.timestamp) < left v.cursor
  left_lt v l member hit =
      length-filter_lt (asked_at (some l.timestamp)) (asked_at v.cursor) l table still member hit
        gone
    where
      still : (r : LogEntry) → asked_at (some l.timestamp) r ≡ true → asked_at v.cursor r ≡ true
      still r h =
          elim (asked_or_IsSeen id source v r (asked-matches id source (some l.timestamp) r h)) [
            | inl asked ↦ asked
            | inr seen ↦
                let before = seen-lt-asked id source v.cursor r.timestamp l seen hit in
                let after =
                  seen-lt-asked id source (some l.timestamp) l.timestamp r (omega arith) h in
                absurd (omega (arith, before, after))
          ]

      gone : asked_at (some l.timestamp) l ≡ false
      gone = elim (Bool-cases (asked_at (some l.timestamp) l)) [
        | inr gone_now ↦ gone_now
        | inl again ↦
            let after =
              seen-lt-asked id source (some l.timestamp) l.timestamp l (omega arith) again in
            absurd (omega (arith, after))
      ]

  abbrev pub page_of : Viewer → LogPage
  page_of v = log_page table status id (log_query source v)

  pub poll-eq :
      (v : Viewer)
      → v.is_fetching ≡ false
      → poll interval table status id source v
        ≡ end_fetch interval (page_of v) (record v { is_fetching = true })
  unfolding poll
  poll-eq v idle = by_flag v.is_fetching idle
    where
      by_flag :
          (b : Bool)
          → b ≡ false
          → (if b then v else end_fetch interval (page_of v) (begin_fetch v))
            ≡ end_fetch interval (page_of v) (record v { is_fetching = true })
      by_flag b e = rw (e, begin_fetch-eq v idle) refl

  module _ (distinct : HasDistinctTimes id table) where
    pub page_of-IsPage : (v : Viewer) → IsPage table id (log_query source v) (page_of v)
    page_of-IsPage v = log_page-IsPage table status id (log_query source v) distinct refl

    pub started :
        (v : Viewer)
        → Follows interval id source table v
        → Follows interval id source table (record v { is_fetching = true })
    started v f =
        Follows-flags interval id source table v (record v { is_fetching = true }) f refl refl
          (record { first = f.orderly.first; direct = f.orderly.direct })

    pub Follows-poll :
        (v : Viewer)
        → v.is_fetching ≡ false
        → Follows interval id source table v
        → Follows interval id source table (poll interval table status id source v)
    Follows-poll v idle f = rw (poll-eq v idle) (
        Follows-end_fetch interval id source table (record v { is_fetching = true }) (page_of v)
          (started v f) (page_of-IsPage v))

    -- A poll leaves fewer logs to be asked for, unless none was left.
    pub left-poll :
        (v : Viewer)
        → v.is_fetching ≡ false
        → Follows interval id source table v
        → (left (poll interval table status id source v).cursor ≡ 0)
          ⊎ (left (poll interval table status id source v).cursor < left v.cursor)
    left-poll v idle f =
        rw (poll-eq v idle)
          (elim (moved interval id source table (record v { is_fetching = true }) (page_of v)
            (started v f) (page_of-IsPage v)) [
              | inr (l, last, new, at) ↦
                  let (hit, member) = (page_of-IsPage v).sound l new in
                  inr (rw at (left_lt v l member hit))
              | inl (empty, same) ↦ inl (
                  rw same (elim (empty_or_member (filter (asked_at v.cursor) table)) [
                    | inl none_left ↦ none_left
                    | inr (r, h) ↦
                        let (hit, member) = In-filter (asked_at v.cursor) r table h in
                        absurd (
                          log_page_nonempty table status id (log_query source v) distinct refl r
                            member hit empty)
                  ]))
            ])

    -- Once nothing is left to be asked for, all that matches was received.
    pub received_all :
        (v : Viewer)
        → Follows interval id source table v
        → left v.cursor ≡ 0
        → (r : LogEntry)
        → In r (received v) ↔ (In r table × (log_where id (all_of source) r ≡ true))
    received_all v f none_left r = (
      λ h. let (member, matches, _) = (f.exact r).0 h in (member, matches),
      λ (member, matches). (f.exact r).1 (
        member,
        matches,
        elim (asked_or_IsSeen id source v r matches) [
          | inr seen ↦ seen
          | inl asked ↦ absurd (
              omega (
                arith,
                none_left,
                In-length r (filter (asked_at v.cursor) table)
                    (filter-In (asked_at v.cursor) r table asked member),
              ))
        ],
      ),
    )
      where
        In-length : (r : LogEntry) (t : List LogEntry) → In r t → 0 < length t
        In-length r [] h = elim h [ ]
        In-length r (x ∷ t) h = omega arith
