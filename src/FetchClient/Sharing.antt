-- ===== src/FetchClient/Sharing.antt =====
-- apps/web/lib/fetch-client.ts, `refreshTokens`: requests that run at the same time share one refresh.
-- The state is `this.refreshPromise`, the calls of /auth/refresh that are not answered yet, each for
-- the promise that it will settle, and the requests that made a promise and have not resumed.
use code2cloud.Prelude.{
  ℕ, suc, String, ◌≤◌, ◌≡◌, refl, sym, ◌∙◌, Bool, true, not, Option, none, some, List, [], ◌∷◌, inl,
  inr, In, length, filter, nat_eq, arith, non_empty, ap, subst,
}
use code2cloud.Prisma.Laws.{In-filter}

pub record Shared : Type 0 where
  -- the cookie of the refresh token
  pub refresh : Option String
  pub refresh_promise : Option ℕ
  pub made : ℕ
  pub calls : List (ℕ × String)
  pub owners : List ℕ

abbrev pub sharing : Option String → Shared
sharing refresh = record {
  refresh = refresh;
  refresh_promise = none;
  made = 0;
  calls = [];
  owners = [];
}

abbrev pub call_by : ℕ → Option String → List (ℕ × String) → List (ℕ × String)
call_by k none calls = calls
call_by k (some token) calls = (k, token) ∷ calls

-- What runs at once when a request calls `refreshTokens`: it joins the promise that there is, or
-- makes one, which sends the refresh token if there is one, and else is rejected at once.
abbrev pub join_or_make : Option ℕ → Shared → Shared
join_or_make (some k) s = s
join_or_make none s = record s {
  refresh_promise = some s.made;
  made = suc s.made;
  calls = call_by s.made (non_empty s.refresh) s.calls;
  owners = s.made ∷ s.owners;
}

unfoldable pub call_refresh_tokens : Shared → Shared
call_refresh_tokens s = join_or_make s.refresh_promise s

abbrev pub other_call : ℕ → ℕ × String → Bool
other_call k (j, token) = not (nat_eq j k)

-- The server answers, with a new refresh token unless it refuses.
unfoldable pub answer_call : ℕ → Option String → Shared → Shared
answer_call k renewed s = record s {
  calls = filter (other_call k) s.calls;
  refresh = elim renewed [ none ↦ s.refresh | some token ↦ some token ];
}

-- The `finally` block of the request that made the promise.
unfoldable pub release : ℕ → Shared → Shared
release k s = record s { refresh_promise = none; owners = filter (λ j. not (nat_eq j k)) s.owners }

pub data Step (s : Shared) : Shared → Type 0 where
  expire : Step s (call_refresh_tokens s)
  answer :
      (k : ℕ) (token : String) (renewed : Option String)
      → In (k, token) s.calls
      → Step s (answer_call k renewed s)
  resume :
      (k : ℕ) → In k s.owners → ((token : String) → ¬ In (k, token) s.calls) → Step s (release k s)
  -- a login, or the removal of the tokens
  change : (token : Option String) → Step s (record s { refresh = token })

pub data Reach (s : Shared) : Shared → Type 0 where
  here : Reach s s
  next : {t u : Shared} → Reach s t → Step t u → Reach s u

record IsSingle (s : Shared) : Type 0 where
  few : length s.calls ≤ 1
  owned : (k : ℕ) (token : String) → In (k, token) s.calls → In k s.owners
  current : (k : ℕ) → In k s.owners → s.refresh_promise ≡ some k

some-inj : {a b : ℕ} → ◌≡◌ {A = Option ℕ} (some a) (some b) → a ≡ b
some-inj e = cc

none_made : {a : ℕ} → ◌≡◌ {A = Option ℕ} none (some a) → ⊥
none_made e = cc

no_owner : (s : Shared) → IsSingle s → s.refresh_promise ≡ none → (k : ℕ) → ¬ In k s.owners
no_owner s h idle k mine = none_made (sym idle ∙ h.current k mine)

none-In : {A : Type 0} (xs : List A) → ((x : A) → ¬ In x xs) → xs ≡ []
none-In [] h = refl
none-In (x ∷ xs) h = absurd (h x (inl refl))

length-filter_le : {A : Type 0} (p : A → Bool) (xs : List A) → length (filter p xs) ≤ length xs
length-filter_le p [] = omega arith
length-filter_le p (x ∷ xs) = ground (arith, length-filter_le p xs)

In-call_by :
    (made k : ℕ) (o : Option String) (token : String) → In (k, token) (call_by made o []) → k ≡ made
In-call_by made k none token h = absurd h
In-call_by made k (some t) token (inl e) = ap (λ (c : ℕ × String). c.0) e
In-call_by made k (some t) token (inr h) = absurd h

length-call_by : (made : ℕ) (o : Option String) → length (call_by made o []) ≤ 1
length-call_by made none = omega arith
length-call_by made (some t) = omega arith

IsSingle-make :
    (s : Shared) → IsSingle s → s.refresh_promise ≡ none → IsSingle (join_or_make none s)
IsSingle-make s h idle =
    let no_calls =
      none-In s.calls (λ (k, token) mine. no_owner s h idle k (h.owned k token mine)) in
    let no_owners = none-In s.owners (no_owner s h idle) in
    record {
      few = rw no_calls (length-call_by s.made (non_empty s.refresh));
      owned = λ k token mine.
          let mine' =
            subst (λ c. In (k, token) (call_by s.made (non_empty s.refresh) c)) no_calls mine in
          inl (In-call_by s.made k (non_empty s.refresh) token mine');
      current = λ k mine. elim mine [
        | inl e ↦ ap some (sym e)
        | inr old ↦ absurd (no_owner s h idle k old)
      ];
    }

IsSingle-join_or_make :
    (o : Option ℕ) (s : Shared) → IsSingle s → s.refresh_promise ≡ o → IsSingle (join_or_make o s)
IsSingle-join_or_make none s h e = IsSingle-make s h e
IsSingle-join_or_make (some k) s h e = h

-- If the calls are of promise `k` only, none is left when that has none.
resume-IsSingle :
    (s : Shared) (k : ℕ)
    → IsSingle s
    → In k s.owners
    → ((token : String) → ¬ In (k, token) s.calls)
    → IsSingle (release k s)
unfolding release
resume-IsSingle s k h mine settled =
    let same : (j : ℕ) → In j s.owners → j ≡ k =
      λ j other. some-inj (sym (h.current j other) ∙ h.current k mine) in
    let no_calls : (j : ℕ) (token : String) → ¬ In (j, token) s.calls = λ j token c.
      settled token (subst (λ i. In (i, token) s.calls) (same j (h.owned j token c)) c) in
    record {
      few = h.few;
      owned = λ j token c. absurd (no_calls j token c);
      current = λ j other.
          let (kept, old) = In-filter (λ i. not (nat_eq i k)) j s.owners other in
          absurd (gone j (same j old) kept);
    }
  where
    gone : (j : ℕ) → j ≡ k → not (nat_eq j k) ≡ true → ⊥
    gone j e kept = ground arith

Step-IsSingle : {s t : Shared} → Step s t → IsSingle s → IsSingle t
unfolding call_refresh_tokens answer_call
Step-IsSingle {s} expire h = IsSingle-join_or_make s.refresh_promise s h refl
Step-IsSingle {s} (answer k token renewed mine) h = record {
  few = omega (arith, h.few, length-filter_le (other_call k) s.calls);
  owned = λ j t c. h.owned j t (In-filter (other_call k) (j, t) s.calls c).1;
  current = h.current;
}
Step-IsSingle {s} (resume k mine settled) h = resume-IsSingle s k h mine settled
Step-IsSingle (change token) h = record { few = h.few; owned = h.owned; current = h.current }

sharing-IsSingle : (refresh : Option String) → IsSingle (sharing refresh)
sharing-IsSingle refresh = record {
  few = omega arith;
  owned = λ k t c. absurd c;
  current = λ k c. absurd c;
}

Reach-IsSingle : {s t : Shared} → IsSingle s → Reach s t → IsSingle t
Reach-IsSingle h here = h
Reach-IsSingle h (next r s) = Step-IsSingle s (Reach-IsSingle h r)

-- However requests that expire, answers, logins and logouts interleave, at most one call of
-- /auth/refresh is unanswered at any time, and the promise that it settles is the one that every
-- request that expires meanwhile joins.
pub Reach-single_refresh :
    {refresh : Option String} {s : Shared}
    → Reach (sharing refresh) s
    → (length s.calls ≤ 1)
      × ((k : ℕ) (token : String)
          → In (k, token) s.calls
          → (s.refresh_promise ≡ some k) × (call_refresh_tokens s ≡ s))
unfolding call_refresh_tokens
Reach-single_refresh {refresh} {s} r =
    let h = Reach-IsSingle (sharing-IsSingle refresh) r in
    (h.few, λ k token c. let now = h.current k (h.owned k token c) in (now, rw now refl))
