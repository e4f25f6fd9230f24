-- ===== src/LogStream/Follow.antt =====
-- What the operations of a viewer do to what it has received.
use mathlib.Core.Bool.{false≢true}
use mathlib.Core.List.{append-nil, append_assoc}
use code2cloud.Prelude.{
  ℕ, ◌≡◌, refl, sym, ap, ◌∙◌, Bool, true, false, Option, List, [], ◌∷◌, ◌++◌, inl, inr, arith,
  Bool-cases, nat_eq, ◌||◌, if◌then◌else◌,
}
use code2cloud.Schema.{LogEntry}
use code2cloud.Deployments.{LogPage}
use code2cloud.LogStream.{
  Viewer, drip_from, drip, start_drip, enqueue_logs, receive_logs, end_fetch, received,
}

-- Entries that are shown at once are so because nothing waits before them.
pub record IsOrderly (interval : ℕ) (v : Viewer) : Type 0 where
  pub first : v.is_first_batch ≡ true → v.buffer ≡ []
  pub direct : nat_eq interval 0 ≡ true → v.buffer ≡ []

received-drip_from : (b : List LogEntry) (v : Viewer) → received (drip_from b v) ≡ v.logs ++ b
received-drip_from [] v = refl
received-drip_from (x ∷ xs) v = append_assoc v.logs (x ∷ []) xs

pub received-drip : (v : Viewer) → received (drip v) ≡ received v
unfolding drip
received-drip v = received-drip_from v.buffer v

received-start_drip : (v : Viewer) → received (start_drip v) ≡ received v
unfolding start_drip
received-start_drip v = elim (Bool-cases v.is_dripping) [
  | inl e ↦ ap received (pick v.is_dripping e)
  | inr e ↦ ap received (other v.is_dripping e) ∙ received-drip (record v { is_dripping = true })
]
  where
    pick : (b : Bool) → b ≡ true → (if b then v else drip (record v { is_dripping = true })) ≡ v
    pick b e = rw e refl

    other :
        (b : Bool)
        → b ≡ false
        → (if b then v else drip (record v { is_dripping = true }))
          ≡ drip (record v { is_dripping = true })
    other b e = rw e refl

-- An answer's entries come after what was received.
received-enqueue_logs :
    (interval : ℕ) (ls : List LogEntry) (now : Bool) (v : Viewer)
    → (now || nat_eq interval 0 ≡ true → v.buffer ≡ [])
    → received (enqueue_logs interval ls now v) ≡ received v ++ ls
unfolding enqueue_logs
received-enqueue_logs interval [] now v h = sym (append-nil (received v))
received-enqueue_logs interval (l ∷ ls) now v h = elim (Bool-cases (now || nat_eq interval 0)) [
  | inl direct ↦ rw direct (append_at v.buffer (h direct))
  | inr later ↦ rw later (
      received-start_drip (record v { buffer = v.buffer ++ l ∷ ls })
      ∙ sym (append_assoc v.logs v.buffer (l ∷ ls)))
]
  where
    append_at : (b : List LogEntry) → b ≡ [] → (v.logs ++ l ∷ ls) ++ b ≡ (v.logs ++ b) ++ l ∷ ls
    append_at b e =
        rw e (append-nil (v.logs ++ l ∷ ls) ∙ ap (λ t. t ++ l ∷ ls) (sym (append-nil v.logs)))

abbrev is_empty : List LogEntry → Bool
is_empty [] = true
is_empty (x ∷ xs) = false

is_first-drip : (v : Viewer) → (drip v).is_first_batch ≡ v.is_first_batch
unfolding drip
is_first-drip v = by_buffer v.buffer
  where
    by_buffer : (b : List LogEntry) → (drip_from b v).is_first_batch ≡ v.is_first_batch
    by_buffer [] = refl
    by_buffer (x ∷ xs) = refl

pub cursor-drip : (v : Viewer) → (drip v).cursor ≡ v.cursor
unfolding drip
cursor-drip v = by_buffer v.buffer
  where
    by_buffer : (b : List LogEntry) → (drip_from b v).cursor ≡ v.cursor
    by_buffer [] = refl
    by_buffer (x ∷ xs) = refl

pub is_fetching-drip : (v : Viewer) → (drip v).is_fetching ≡ v.is_fetching
unfolding drip
is_fetching-drip v = by_buffer v.buffer
  where
    by_buffer : (b : List LogEntry) → (drip_from b v).is_fetching ≡ v.is_fetching
    by_buffer [] = refl
    by_buffer (x ∷ xs) = refl

is_first-enqueue_logs :
    (interval : ℕ) (l : LogEntry) (ls : List LogEntry) (now : Bool) (v : Viewer)
    → (enqueue_logs interval (l ∷ ls) now v).is_first_batch ≡ v.is_first_batch
unfolding enqueue_logs start_drip
is_first-enqueue_logs interval l ls now v =
    ground (arith, is_first-drip (record v { buffer = v.buffer ++ l ∷ ls; is_dripping = true }))

buffer-enqueue_logs :
    (interval : ℕ) (l : LogEntry) (ls : List LogEntry) (now : Bool) (v : Viewer)
    → nat_eq interval 0 ≡ true
    → (enqueue_logs interval (l ∷ ls) now v).buffer ≡ v.buffer
unfolding enqueue_logs
buffer-enqueue_logs interval l ls true v h = refl
buffer-enqueue_logs interval l ls false v h = rw h refl

module _ (interval : ℕ) where
  direct_buffer :
      (v : Viewer)
      → IsOrderly interval v
      → (now : Bool) → v.is_first_batch ≡ now
      → now || nat_eq interval 0 ≡ true
      → v.buffer ≡ []
  direct_buffer v o true e h = o.first e
  direct_buffer v o false e h = o.direct h

  received-receive_logs :
      (ls : List LogEntry) (next : Option ℕ) (v : Viewer)
      → IsOrderly interval v
      → received (receive_logs interval ls next v) ≡ received v ++ ls
  received-receive_logs [] next v o = sym (append-nil (received v))
  received-receive_logs (l ∷ ls) next v o =
      received-enqueue_logs interval (l ∷ ls) v.is_first_batch (record v { is_first_batch = false })
        (direct_buffer v o v.is_first_batch refl)

  pub received-end_fetch :
      (p : LogPage) (v : Viewer)
      → IsOrderly interval v
      → received (end_fetch interval p v) ≡ received v ++ p.logs
  unfolding end_fetch
  received-end_fetch p v o = received-receive_logs p.logs p.next_cursor v o

  pub IsOrderly-drip : (v : Viewer) → IsOrderly interval v → IsOrderly interval (drip v)
  unfolding drip
  IsOrderly-drip v o = by_buffer v.buffer refl
    where
      by_buffer : (b : List LogEntry) → v.buffer ≡ b → IsOrderly interval (drip_from b v)
      by_buffer [] e = record { first = λ _. refl; direct = λ _. refl }
      by_buffer (x ∷ xs) e = record {
        first = λ h. absurd (false≢true (ap is_empty (sym e ∙ o.first h)));
        direct = λ h. absurd (false≢true (ap is_empty (sym e ∙ o.direct h)));
      }

  IsOrderly-receive_logs :
      (ls : List LogEntry) (next : Option ℕ) (v : Viewer)
      → IsOrderly interval v
      → IsOrderly interval (receive_logs interval ls next v)
  IsOrderly-receive_logs [] next v o = o
  IsOrderly-receive_logs (l ∷ ls) next v o =
      let w : Viewer = record v { is_first_batch = false } in
      record {
        first = λ h.
            absurd (false≢true (sym (is_first-enqueue_logs interval l ls v.is_first_batch w) ∙ h));
        direct = λ h. buffer-enqueue_logs interval l ls v.is_first_batch w h ∙ o.direct h;
      }

  pub IsOrderly-end_fetch :
      (p : LogPage) (v : Viewer)
      → IsOrderly interval v
      → IsOrderly interval (end_fetch interval p v)
  unfolding end_fetch
  IsOrderly-end_fetch p v o =
      let kept = IsOrderly-receive_logs p.logs p.next_cursor v o in
      record { first = kept.first; direct = kept.direct }
