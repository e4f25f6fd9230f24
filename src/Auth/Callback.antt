-- ===== src/Auth/Callback.antt =====
-- Who is signed in by GitHub, and whose the account is afterwards.
use mathlib.Core.Bool.{false≢true}
use code2cloud.Prelude.{
  String, ◌≡◌, refl, sym, ap, ◌∙◌, subst, Bool, true, false, Option, none, some, List, [], ◌∷◌,
  ◌++◌, ◌⊎◌, inl, inr, any, non_empty, or_else, truthy, In, In-append_right, eq_iff, Bool-cases,
  Option-cases, if◌then◌else◌,
}
use code2cloud.Schema.{User, GitAccount}
use code2cloud.Prisma.{Prisma, change_where}
use code2cloud.Prisma.Laws.{In-change_where}
use code2cloud.World.{
  World, Database, Outcome, done, fail, Act, unauthorized, thrown, ◌>>◌, get, require, ◌>>=◌,
}
use code2cloud.World.Laws.{bind-done, bind-fail, require_rule}
use code2cloud.Auth.{AuthApi, Tokens, has_user_id, get_tokens, issue}
use code2cloud.Auth.Accounts.{
  CompleteGithubPayload, is_link, has_email, user_ids, user_row, upsert_account, create_user,
  merge_user, owner_of, user_or, github_user, user_for, link_account, login_by_github,
  process_github_callback,
}
use code2cloud.Auth.Refresh.{remembering, issue-eq-done}
use code2cloud.Auth.Link.{any-In, any_some}
use code2cloud.Auth.SignedIn.{
  linked_world, upsert_account-eq-done, upsert_account-eq-fail, IsSignedIn, signed_in,
}

module _ ⦃prisma : Prisma⦄ ⦃api : AuthApi⦄ (payload : CompleteGithubPayload)
    (installation : Option String) where
  -- The user of the session, of the GitHub account, of the address, or a new one.
  pub data IsChosen (current_user : Option String) (db : Database) (user_id : String) : Type 0 where
    by_session : non_empty current_user ≡ some user_id → IsChosen current_user db user_id
    by_account :
        (a : GitAccount) (u : User)
        → non_empty current_user ≡ none
        → In a db.git_accounts
        → is_link payload.github_id a ≡ true
        → In u db.users
        → u.id ≡ a.user_id
        → u.id ≡ user_id
        → IsChosen current_user db user_id
    by_email :
        (u : User)
        → non_empty current_user ≡ none
        → In u db.users
        → non_empty payload.email ≡ some u.email
        → u.id ≡ user_id
        → IsChosen current_user db user_id
    by_sign_up :
        (email : String)
        → non_empty current_user ≡ none
        → non_empty payload.email ≡ some email
        → ((u : User) → In u db.users → has_email email u ≡ false)
        → ¬ In user_id (user_ids db)
        → IsChosen current_user db user_id

  -- The user of the session is not known, or there is no session and no address.
  abbrev pub IsRefused : Option String → Database → Type 0
  IsRefused current_user db =
      ((user_id : String) × (non_empty current_user ≡ some user_id)
        × (any (has_user_id user_id) db.users ≡ false))
      ⊎ ((non_empty current_user ≡ none) × (non_empty payload.email ≡ none))

  abbrev pub CallbackOutcome : Option String → World → Outcome Tokens → Type 0
  CallbackOutcome current_user w (done tokens w') =
      (user_id : String) × IsChosen current_user w.db user_id
      × IsSignedIn payload installation user_id w.db.git_accounts tokens w'
  CallbackOutcome current_user w (fail e w') = (w' ≡ w) × IsRefused current_user w.db

  link_account_lem :
      (current_user : Option String) (user_id : String) (w : World)
      → non_empty current_user ≡ some user_id
      → CallbackOutcome current_user w (link_account payload installation user_id w)
  unfolding link_account
  link_account_lem current_user user_id w session =
      elim (Bool-cases (any (has_user_id user_id) w.db.users)) [
        | inr unknown ↦
            subst (CallbackOutcome current_user w)
              (sym (
                bind-fail upsert after_upsert w _ w
                  (upsert_account-eq-fail payload installation user_id w unknown)))
              (refl, inl (user_id, session, unknown))
        | inl known ↦
            subst (CallbackOutcome current_user w)
              (sym (
                bind-done upsert after_upsert w tt (linked_world payload installation w user_id)
                  (upsert_account-eq-done payload installation user_id w known)))
              (require_rule (CallbackOutcome current_user w) (thrown "TypeError")
                (linked_world payload installation w user_id)
                (prisma.find_first (has_user_id user_id) w.db.users) issue
                (λ missing.
                  let (r, h, e) = any_some (has_user_id user_id) w.db.users known in
                  absurd (false≢true (sym (prisma.find_first_none _ _ r missing h) ∙ e)))
                (λ u found.
                  let (hit, member) = prisma.find_first_some _ _ u found in
                  let same : u.id ≡ user_id = (eq_iff u.id user_id).0 hit in
                  subst (CallbackOutcome current_user w)
                    (sym (issue-eq-done u (linked_world payload installation w user_id)))
                    (
                      user_id,
                      by_session session,
                      subst
                          (λ i.
                            IsSignedIn payload installation i w.db.git_accounts (get_tokens u)
                              (remembering (linked_world payload installation w i) u))
                          same (signed_in payload installation w u),
                    )))
      ]
    where
      upsert : Act (Unit {0})
      upsert = upsert_account payload installation user_id

      after_upsert : Unit {0} → Act Tokens
      after_upsert _ = do
        w ← get
        user ← require (prisma.find_first (has_user_id user_id) w.db.users) (thrown "TypeError")
        issue user

  abbrev with_users : World → List User → World
  with_users w users = record w { db = record w.db { users = users } }

  after_user : User → Act Tokens
  after_user u = do upsert_account payload installation u.id; issue u

  after_user-eq-done :
      (u : User) (w : World)
      → any (has_user_id u.id) w.db.users ≡ true
      → after_user u w
        ≡ done (get_tokens u) (remembering (linked_world payload installation w u.id) u)
  unfolding after_user
  after_user-eq-done u w known =
      bind-done (upsert_account payload installation u.id) (λ _. issue u) w tt
        (linked_world payload installation w u.id)
        (upsert_account-eq-done payload installation u.id w known)
      ∙ issue-eq-done u (linked_world payload installation w u.id)

  some-inj : {A : Type 0} {a b : A} → ◌≡◌ {A = Option A} (some a) (some b) → a ≡ b
  some-inj e = cc

  none_left : {A : Type 0} {a : A} → ◌≡◌ {A = Option A} none (some a) → ⊥
  none_left e = cc

  module _ (current_user : Option String) (email : String) (w : World)
      (no_session : non_empty current_user ≡ none)
      (given : non_empty payload.email ≡ some email) where
    chosen_by_email :
        (u : User)
        → prisma.find_first (has_email email) w.db.users ≡ some u
        → In u w.db.users × IsChosen current_user w.db u.id
    chosen_by_email u found =
        let (hit, member) = prisma.find_first_some _ _ u found in
        let same : u.email ≡ email = (eq_iff u.email email).0 hit in
        (member, by_email u no_session member (given ∙ ap some (sym same)) refl)

    chosen :
        (o : Option GitAccount) (u : User)
        → prisma.find_first (is_link payload.github_id) w.db.git_accounts ≡ o
        → user_or w.db email (owner_of w.db o) ≡ some u
        → In u w.db.users × IsChosen current_user w.db u.id
    chosen none u link found = chosen_by_email u found
    chosen (some a) u link found =
        elim (Option-cases (prisma.find_first (has_user_id a.user_id) w.db.users)) [
          | inl missing ↦ chosen_by_email u (ap (user_or w.db email) (sym missing) ∙ found)
          | inr (v, owner) ↦
              let same : v ≡ u = some-inj (ap (user_or w.db email) (sym owner) ∙ found) in
              let (hit, member) = prisma.find_first_some _ _ v owner in
              let (link_hit, account) = prisma.find_first_some _ _ a link in
              subst (λ x. In x w.db.users × IsChosen current_user w.db x.id) same
                (
                  member,
                  by_account a v no_session account link_hit member ((eq_iff v.id a.user_id).0 hit)
                      refl,
                )
        ]

    absent :
        (o : Option GitAccount) (u : User)
        → user_or w.db email (owner_of w.db o) ≡ none
        → In u w.db.users
        → has_email email u ≡ false
    absent none u missing h = prisma.find_first_none _ _ u missing h
    absent (some a) u missing h =
        elim (Option-cases (prisma.find_first (has_user_id a.user_id) w.db.users)) [
          | inl no_owner ↦
              prisma.find_first_none _ _ u (ap (user_or w.db email) (sym no_owner) ∙ missing) h
          | inr (v, owner) ↦
              absurd (none_left (sym (ap (user_or w.db email) (sym owner) ∙ missing)))
        ]

    -- The user that was found or made is known to the database when the account is linked.
    user_for_lem :
        (o : Option User)
        → github_user payload email w.db ≡ o
        → (u : User) × (users : List User) × (user_for payload email o w
            ≡ done u (with_users w users))
          × (any (has_user_id u.id) users ≡ true)
          × IsChosen current_user w.db u.id
    unfolding create_user merge_user
    user_for_lem none missing = (
      row,
      w.db.users ++ row ∷ [],
      rw (prisma.create_lem (row ∷ []) w.db.users) refl,
      any-In (has_user_id row.id) row (w.db.users ++ row ∷ [])
          (In-append_right row w.db.users (row ∷ []) (inl refl)) ((eq_iff row.id row.id).1 refl),
      by_sign_up email no_session given
          (λ u h.
            absent (prisma.find_first (is_link payload.github_id) w.db.git_accounts) u missing h)
          (prisma.uuid_fresh (user_ids w.db)),
    )
      where
        row : User
        row =
            user_row (prisma.uuid (user_ids w.db)) email none
              (some (or_else payload.name payload.username)) payload.avatar_url (some "github")
    user_for_lem (some u) found =
        let (member, choice) =
          chosen (prisma.find_first (is_link payload.github_id) w.db.git_accounts) u refl found in
        (
          u,
          change_where (has_user_id u.id) change w.db.users,
          rw (prisma.update_lem (has_user_id u.id) change w.db.users) refl,
          any-In (has_user_id u.id) (if has_user_id u.id u then change u else u)
              (change_where (has_user_id u.id) change w.db.users)
              (In-change_where (has_user_id u.id) change u w.db.users member)
              (same_id (has_user_id u.id u)),
          choice,
        )
      where
        change : User → User
        change v = record v {
          provider = some "github";
          avatar = if truthy payload.avatar_url then payload.avatar_url else v.avatar;
        }

        same_id : (c : Bool) → has_user_id u.id (if c then change u else u) ≡ true
        same_id true = (eq_iff u.id u.id).1 refl
        same_id false = (eq_iff u.id u.id).1 refl

  login_by_github_lem :
      (current_user : Option String) (w : World)
      → non_empty current_user ≡ none
      → CallbackOutcome current_user w (login_by_github payload installation w)
  unfolding login_by_github after_user
  login_by_github_lem current_user w no_session =
      require_rule (CallbackOutcome current_user w)
        (unauthorized "GitHub account must have a public email") w (non_empty payload.email)
        after_email (λ missing. (refl, inr (no_session, missing)))
        (λ email given.
          let (u, users, made, known, choice) =
            user_for_lem current_user email w no_session given (github_user payload email w.db)
              refl in
          subst (CallbackOutcome current_user w)
            (sym (
              bind-done (user_for payload email (github_user payload email w.db)) after_user w u
                (with_users w users) made
              ∙ after_user-eq-done u (with_users w users) known))
            (u.id, choice, signed_in payload installation (with_users w users) u))
    where
      after_email : String → Act Tokens
      after_email email = do
        w ← get
        user ← user_for payload email (github_user payload email w.db)
        upsert_account payload installation user.id
        issue user

  -- A GitHub callback signs in the user of the session if there is one; else the user whom the GitHub
  -- account or its address belongs to, or a new user if there is none. Afterwards that account is
  -- linked to this user and to no other, the other accounts are as before, and the tokens are the
  -- user's, whose new refresh token is remembered. A callback fails only if the user of the session is
  -- not known, or if there is no session and GitHub gives no address, and then writes nothing.
  pub process_github_callback_lem :
      (current_user : Option String) (w : World)
      → CallbackOutcome current_user w (process_github_callback payload installation current_user w)
  unfolding process_github_callback
  process_github_callback_lem current_user w = elim (Option-cases (non_empty current_user)) [
    | inl missing ↦ rw missing (login_by_github_lem current_user w missing)
    | inr (user_id, session) ↦ rw session (link_account_lem current_user user_id w session)
  ]
