-- ===== src/Auth/Link.antt =====
-- Whose a GitHub account is when it was linked.
use mathlib.Core.Bool.{false≢true}
use code2cloud.Prelude.{
  String, ◌≡◌, refl, sym, ap, ◌∙◌, subst, Bool, true, false, Option, none, some, List, [], ◌∷◌, ◌↔◌,
  inl, inr, any, map, In, In-append, In-append_left, In-append_right, eq_iff, Bool-cases,
  if◌then◌else◌, arith,
}
use code2cloud.Schema.{GitAccount}
use code2cloud.Prisma.{Prisma, change_where}
use code2cloud.Prisma.Laws.{In-change_where, change_where-In}
use code2cloud.Auth.Accounts.{CompleteGithubPayload, is_link, new_account, relinked, upserted}

-- The GitHub account belongs to the user, and the other accounts are as before.
pub record IsLinked (github_id user_id : String) (before after : List GitAccount) : Type 0 where
  pub linked : (a : GitAccount) × In a after × (is_link github_id a ≡ true)
  pub owned : (a : GitAccount) → In a after → is_link github_id a ≡ true → a.user_id ≡ user_id
  pub others : (a : GitAccount) → is_link github_id a ≡ false → In a after ↔ In a before

module _ {Row : Type 0} (p : Row → Bool) where
  pub any-In : (r : Row) (t : List Row) → In r t → p r ≡ true → any p t ≡ true
  any-In r [] h e = elim h [ ]
  any-In r (x ∷ t) (inl q) e = ground arith
  any-In r (x ∷ t) (inr h) e = ground (arith, any-In r t h e)

  pub any_some : (t : List Row) → any p t ≡ true → (r : Row) × In r t × (p r ≡ true)
  any_some [] e = absurd (false≢true e)
  any_some (x ∷ t) e = elim (Bool-cases (p x)) [
    | inl here ↦ (x, inl refl, here)
    | inr there ↦ let (r, h, q) = any_some t (rw there at e) in (r, inr h, q)
  ]

module _ ⦃prisma : Prisma⦄ (payload : CompleteGithubPayload) (installation : Option String)
    (user_id : String) where
  relinked-is_link :
      (a : GitAccount)
      → is_link payload.github_id (relinked payload installation user_id a)
        ≡ is_link payload.github_id a
  relinked-is_link a = refl

  pub upserted-IsLinked :
      (t : List GitAccount) (o : Option GitAccount)
      → prisma.find_first (is_link payload.github_id) t ≡ o
      → IsLinked payload.github_id user_id t (upserted payload installation user_id t o)
  upserted-IsLinked t none missing = rw (prisma.create_lem (row ∷ []) t) (record {
    linked = (row, In-append_right row t (row ∷ []) (inl refl), is_link-row);
    owned = λ a h e. elim (In-append a t (row ∷ []) h) [
      | inl old ↦ absurd (false≢true (sym (prisma.find_first_none _ _ a missing old) ∙ e))
      | inr new ↦ elim new [
        | inl same ↦ ap (λ (x : GitAccount). x.user_id) same
        | inr no_more ↦ absurd no_more
      ]
    ];
    others = λ a e. (
      λ h. elim (In-append a t (row ∷ []) h) [
        | inl old ↦ old
        | inr new ↦ elim new [
          | inl same ↦
              absurd (false≢true (sym e ∙ ap (is_link payload.github_id) same ∙ is_link-row))
          | inr no_more ↦ absurd no_more
        ]
      ],
      λ h. In-append_left a t (row ∷ []) h,
    );
  })
    where
      row : GitAccount
      row =
          new_account (prisma.uuid (map (λ (a : GitAccount). a.id) t)) payload installation user_id

      is_link-row : is_link payload.github_id row ≡ true
      is_link-row = (eq_iff payload.github_id payload.github_id).1 refl
  upserted-IsLinked t (some b) found =
      let (hit, member) = prisma.find_first_some _ _ b found in
      rw (prisma.update_lem test change t) (record {
        linked = (
          change b,
          subst (λ x. In x (change_where test change t)) (pick b hit)
              (In-change_where test change b t member),
          hit,
        );
        owned = λ a h e.
            let (x, old, same) = change_where-In test change a t h in
            by_test x same e (test x) refl;
        others = λ a e. (
          λ h.
              let (x, old, same) = change_where-In test change a t h in
              unchanged x a same e old (test x) refl,
          λ h.
              subst (λ x. In x (change_where test change t)) (keep a e)
                (In-change_where test change a t h),
        );
      })
    where
      test : GitAccount → Bool
      test = is_link payload.github_id

      change : GitAccount → GitAccount
      change = relinked payload installation user_id

      pick : (x : GitAccount) → test x ≡ true → (if test x then change x else x) ≡ change x
      pick x e = rw e refl

      keep : (x : GitAccount) → test x ≡ false → (if test x then change x else x) ≡ x
      keep x e = rw e refl

      by_test :
          {a : GitAccount} (x : GitAccount)
          → a ≡ (if test x then change x else x)
          → test a ≡ true
          → (c : Bool) → test x ≡ c
          → a.user_id ≡ user_id
      by_test x same e true hit = ap (λ (y : GitAccount). y.user_id) (same ∙ pick x hit)
      by_test x same e false miss =
          absurd (false≢true (sym miss ∙ sym (ap test (same ∙ keep x miss)) ∙ e))

      unchanged :
          (x a : GitAccount)
          → a ≡ (if test x then change x else x)
          → test a ≡ false
          → In x t
          → (c : Bool) → test x ≡ c
          → In a t
      unchanged x a same e old true hit =
          absurd (false≢true (sym e ∙ ap test (same ∙ pick x hit) ∙ hit))
      unchanged x a same e old false miss = subst (λ y. In y t) (sym (same ∙ keep x miss)) old
