-- ===== src/Settings/Update.antt =====
-- Settings that were saved are read again.
use mathlib.Core.Bool.{false≢true}
use code2cloud.Prelude.{
  String, ◌≡◌, ◌≢◌, refl, sym, ap, ◌∙◌, subst, Bool, true, false, Option, none, some, List, [], ◌∷◌,
  ◌++◌, ◌==◌, In, In-append, In-append_right, inl, inr, eq_iff, Bool-cases, Option-cases, is_blank,
  if◌then◌else◌,
}
use code2cloud.Schema.{SystemConfig}
use code2cloud.Prisma.{Prisma, change_where}
use code2cloud.Prisma.Laws.{In-change_where, change_where-In}
use code2cloud.World.{World, done}
use code2cloud.Encryption.{Crypto, encrypt, decrypt}
use code2cloud.Encryption.Split.{split_colon}
use code2cloud.Encryption.RoundTrip.{decrypt-encrypt}
use code2cloud.Settings.{
  UpdateSettingsDto, is_of_user, given_or, changed, stored_webhook, new_config, get_config,
  update_config,
}

-- The value that was given, if one was.
abbrev pub IsGiven : {A : Type 0} → Option A → A → Type 0
IsGiven none a = Unit
IsGiven (some b) a = a ≡ b

-- The settings have what the request gives.
pub record IsApplied (dto : UpdateSettingsDto) (c : SystemConfig) : Type 0 where
  pub region : IsGiven dto.default_region c.default_region
  pub builds : IsGiven dto.max_concurrent_builds c.max_concurrent_builds
  pub retention : IsGiven dto.log_retention_days c.log_retention_days
  pub turbo : IsGiven dto.turbo_mode c.turbo_mode
  pub ttl : IsGiven dto.global_ttl_minutes c.global_ttl_minutes
  pub auto : IsGiven dto.auto_deploy c.auto_deploy
  pub on_failure : IsGiven dto.email_deploy_failed c.email_deploy_failed
  pub on_success : IsGiven dto.email_deploy_success c.email_deploy_success

IsGiven-given_or : {A : Type 0} (o : Option A) (old : A) → IsGiven o (given_or o old)
IsGiven-given_or none old = tt
IsGiven-given_or (some new) old = refl

IsApplied-changed :
    (dto : UpdateSettingsDto) (webhook : Option String) (c : SystemConfig) (clear : Option String)
    → IsApplied dto (record (changed dto webhook c) { slack_webhook = clear })
IsApplied-changed dto webhook c clear = record {
  region = IsGiven-given_or dto.default_region c.default_region;
  builds = IsGiven-given_or dto.max_concurrent_builds c.max_concurrent_builds;
  retention = IsGiven-given_or dto.log_retention_days c.log_retention_days;
  turbo = IsGiven-given_or dto.turbo_mode c.turbo_mode;
  ttl = IsGiven-given_or dto.global_ttl_minutes c.global_ttl_minutes;
  auto = IsGiven-given_or dto.auto_deploy c.auto_deploy;
  on_failure = IsGiven-given_or dto.email_deploy_failed c.email_deploy_failed;
  on_success = IsGiven-given_or dto.email_deploy_success c.email_deploy_success;
}

module _ ⦃prisma : Prisma⦄ ⦃crypto : Crypto⦄ (user_id : String) (dto : UpdateSettingsDto)
    (s : String) (given : dto.slack_webhook ≡ some s) (nonempty : s ≢ "")
    (shown : is_blank s ≡ false) where
  not_empty : (s == "") ≡ false
  not_empty = elim (Bool-cases (s == "")) [
    | inl empty ↦ absurd (nonempty ((eq_iff s "").0 empty))
    | inr full ↦ full
  ]

  encrypted_not_empty : (encrypt 0 s == "") ≡ false
  unfolding decrypt split_colon
  encrypted_not_empty = elim (Bool-cases (encrypt 0 s == "")) [
    | inr full ↦ full
    | inl empty ↦
        let opened : decrypt "" ≡ some s =
          subst (λ e. decrypt e ≡ some s) ((eq_iff (encrypt 0 s) "").0 empty)
            (decrypt-encrypt 0 s nonempty) in
        absurd (none_left opened)
  ]
    where
      none_left : ◌≡◌ {A = Option String} none (some s) → ⊥
      none_left e = cc

  stored : stored_webhook dto.slack_webhook ≡ some (encrypt 0 s)
  stored = rw (given, not_empty, shown) refl

  abbrev saved : SystemConfig → SystemConfig
  saved = changed dto (some (encrypt 0 s))

  -- A saved row is read with the webhook in clear.
  get_config-saved :
      (w : World) (c x : SystemConfig)
      → prisma.find_first (is_of_user user_id) w.db.configs ≡ some c
      → c ≡ saved x
      → get_config user_id w ≡ done (record (saved x) { slack_webhook = some s }) w
  unfolding get_config
  get_config-saved w c x found same =
      rw (found, same, encrypted_not_empty, decrypt-encrypt 0 s nonempty) refl

  abbrev IsReread : World → Type 0
  IsReread w =
      (c : SystemConfig) × (get_config user_id w ≡ done c w)
      × (c.slack_webhook ≡ some s)
      × IsApplied dto c

  reread :
      (w : World) (c x : SystemConfig)
      → prisma.find_first (is_of_user user_id) w.db.configs ≡ some c
      → c ≡ saved x
      → IsReread w
  reread w c x found same = (
    _,
    get_config-saved w c x found same,
    refl,
    IsApplied-changed dto (some (encrypt 0 s)) x (some s),
  )

  -- A table that has settings of the user, all of them saved ones.
  IsReread-saved :
      (w : World) (r : SystemConfig)
      → In r w.db.configs
      → is_of_user user_id r ≡ true
      → ((c : SystemConfig)
          → In c w.db.configs
          → is_of_user user_id c ≡ true
          → (x : SystemConfig) × (c ≡ saved x))
      → IsReread w
  IsReread-saved w r member mine all_saved =
      elim (Option-cases (prisma.find_first (is_of_user user_id) w.db.configs)) [
        | inl missing ↦
            absurd (false≢true (sym (prisma.find_first_none _ _ r missing member) ∙ mine))
        | inr (c, found) ↦
            let (hit, old) = prisma.find_first_some _ _ c found in
            let (x, same) = all_saved c old hit in reread w c x found same
      ]

  -- Settings with a webhook that is not blank are saved, and then are read with that webhook and with
  -- every other value that the request gives.
  pub update_config_lem :
      (w : World)
      → (r : SystemConfig) × (w' : World) × (update_config user_id dto w ≡ done r w') × IsReread w'
  unfolding update_config
  update_config_lem w = elim (Option-cases (prisma.find_first (is_of_user user_id) w.db.configs)) [
    | inl missing ↦
        let row = saved (new_config user_id w.db.configs) in
        (
          row,
          with_configs (w.db.configs ++ row ∷ []),
          rw (missing, stored, encrypted_not_empty, prisma.create_lem (row ∷ []) w.db.configs) refl,
          IsReread-saved (with_configs (w.db.configs ++ row ∷ [])) row
              (In-append_right row w.db.configs (row ∷ []) (inl refl))
              ((eq_iff user_id user_id).1 refl)
              (λ c h mine. elim (In-append c w.db.configs (row ∷ []) h) [
                | inl old ↦
                    absurd (false≢true (sym (prisma.find_first_none _ _ c missing old) ∙ mine))
                | inr new ↦ elim new [
                  | inl same ↦ (new_config user_id w.db.configs, same)
                  | inr no_more ↦ absurd no_more
                ]
              ]),
        )
    | inr (b, found) ↦
        let (hit, member) = prisma.find_first_some _ _ b found in
        (
          saved b,
          with_configs (change_where (is_of_user user_id) saved w.db.configs),
          rw (found, stored, prisma.update_lem (is_of_user user_id) saved w.db.configs) refl,
          IsReread-saved (with_configs (change_where (is_of_user user_id) saved w.db.configs))
              (saved b)
              (subst (λ x. In x (change_where (is_of_user user_id) saved w.db.configs)) (pick b hit)
                (In-change_where (is_of_user user_id) saved b w.db.configs member))
              hit
              (λ c h mine.
                let (x, old, same) = change_where-In (is_of_user user_id) saved c w.db.configs h in
                by_test c x same mine (is_of_user user_id x) refl),
        )
  ]
    where
      with_configs : List SystemConfig → World
      with_configs t = record w { db = record w.db { configs = t } }

      pick :
          (x : SystemConfig)
          → is_of_user user_id x ≡ true
          → (if is_of_user user_id x then saved x else x) ≡ saved x
      pick x e = rw e refl

      keep :
          (x : SystemConfig)
          → is_of_user user_id x ≡ false
          → (if is_of_user user_id x then saved x else x) ≡ x
      keep x e = rw e refl

      by_test :
          (c x : SystemConfig)
          → c ≡ (if is_of_user user_id x then saved x else x)
          → is_of_user user_id c ≡ true
          → (b : Bool) → is_of_user user_id x ≡ b
          → (y : SystemConfig) × (c ≡ saved y)
      by_test c x same mine true hit = (x, same ∙ pick x hit)
      by_test c x same mine false miss =
          absurd (false≢true (sym miss ∙ sym (ap (is_of_user user_id) (same ∙ keep x miss)) ∙ mine))
