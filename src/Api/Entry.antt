-- ===== src/Api/Entry.antt =====
-- apps/api/src/common/guards and decorators in front of the controllers: who a request acts for.
use mathlib.Core.Bool.{false≢true}
use code2cloud.Prelude.{
  String, Bool, true, false, ◌≡◌, refl, sym, ◌∙◌, Option, none, some, inl, inr, ◌==◌, non_empty,
  if◌then◌else◌, Bool-cases, eq_iff,
}
use code2cloud.Prisma.{Prisma}
use code2cloud.Encryption.{Crypto}
use code2cloud.Github.{GithubApi}
use code2cloud.Url.{UrlConfig}
use code2cloud.Repositories.Service.{GithubFiles}
use code2cloud.Analytics.Overview.{GroupBy}
use code2cloud.World.{World, Outcome, fail, Act, Error, unauthorized, thrown}
use code2cloud.Guards.{
  Incoming, Verdict, missing_key, invalid_key, answered, worker_guard, jwt_guard, jwt_key,
  is_valid_key,
}
use code2cloud.Guards.Key.{HasKey, guards_lem}
use code2cloud.Api.Calls.{UserCall, InternalCall, handle, handle_internal}

-- `subject` is the `sub` of the token, if the JWT strategy accepts it.
pub record ApiRequest : Type 0 where
  pub incoming : Incoming
  pub subject : String

-- `request.user['sub']`: a request of the worker has no user.
abbrev pub current_user_id : ApiRequest → Option String
current_user_id req = elim (non_empty req.incoming.worker_api_key) [
  | none ↦ some req.subject
  | some key ↦ none
]

abbrev pub for_user : {A : Type 0} → Option String → (String → Act A) → Act A
for_user none method w =
    fail (thrown "TypeError: Cannot read properties of undefined (reading 'sub')") w
for_user (some user_id) method w = method user_id w

-- What the guard's verdict makes of a request.
abbrev pub after_guard : {A : Type 0} → Verdict → Act A → Act A
after_guard missing_key m w = fail (unauthorized "Missing worker API key") w
after_guard invalid_key m w = fail (unauthorized "Invalid worker API key") w
after_guard (answered false) m w = fail (unauthorized "Unauthorized") w
after_guard (answered true) m w = m w

module _ ⦃prisma : Prisma⦄ ⦃crypto : Crypto⦄ ⦃files : GithubFiles⦄ where
  unfoldable pub serve_internal : {A : Type 0} → Option String → ApiRequest → InternalCall A → Act A
  serve_internal valid req call =
      after_guard (worker_guard valid req.incoming) (handle_internal call)

module _ ⦃prisma : Prisma⦄ ⦃crypto : Crypto⦄ ⦃github : GithubApi⦄ ⦃config : UrlConfig⦄
    ⦃groups : GroupBy⦄ where
  unfoldable pub serve : {A : Type 0} → Option String → ApiRequest → UserCall A → Act A
  serve valid req call =
      after_guard (jwt_guard valid req.incoming) (for_user (current_user_id req) (handle call))

-- The method runs, or the request fails and nothing is written.
pub data Guarded {A : Type 0} (Allowed : Type 0) (method : Act A) (w : World) (answer : Outcome A)
    : Type 0 where
  handled : Allowed → answer ≡ method w → Guarded Allowed method w answer
  turned_away : (e : Error) → (Allowed → ⊥) → answer ≡ fail e w → Guarded Allowed method w answer

-- The request comes with an accepted token and without a worker's key.
abbrev pub IsUser : ApiRequest → Type 0
IsUser req = (req.incoming.jwt_allows ≡ true) × (non_empty req.incoming.worker_api_key ≡ none)

module _ {A : Type 0} (valid : Option String) (subject : String) (method : String → Act A)
    (w : World) where
  abbrev IsGuarded : Option String → Bool → Type 0
  IsGuarded o jwt = Guarded ((jwt ≡ true) × (non_empty o ≡ none)) (method subject) w (
      after_guard (jwt_key valid o jwt)
        (for_user (elim (non_empty o) [ none ↦ some subject | some key ↦ none ]) method) w)

  none≢some : {B : Type 0} {b : B} → ◌≡◌ {A = Option B} (some b) none → ⊥
  none≢some e = cc

  jwt_rule : (o : Option String) (jwt : Bool) → IsGuarded o jwt
  jwt_rule none true = handled (refl, refl) refl
  jwt_rule none false = turned_away (unauthorized "Unauthorized") (λ a. false≢true a.0) refl
  jwt_rule (some key) jwt = elim (Bool-cases (key == "")) [
    | inl empty ↦ rw empty (without_key jwt)
    | inr given ↦ rw given (with_key (is_valid_key valid key))
  ]
    where
      without_key :
          (jwt : Bool)
          → Guarded
              ((jwt ≡ true) × (◌≡◌ {A = Option String} none none))
              (method subject)
              w
              (after_guard (answered jwt) (for_user (some subject) method) w)
      without_key true = handled (refl, refl) refl
      without_key false = turned_away (unauthorized "Unauthorized") (λ a. false≢true a.0) refl

      with_key :
          (b : Bool)
          → Guarded
              ((jwt ≡ true) × (some key ≡ none))
              (method subject)
              w
              (after_guard (if b then answered true else invalid_key) (for_user none method) w)
      with_key true = turned_away _ (λ a. none≢some a.1) refl
      with_key false = turned_away _ (λ a. none≢some a.1) refl

HasKey-worker_guard :
    (valid : Option String) (req : Incoming)
    → HasKey valid req
    → worker_guard valid req ≡ answered true
unfolding worker_guard
HasKey-worker_guard valid req (key, given, same, filled) =
    rw (given, same, filled, (eq_iff key key).1 refl) refl

missing≢answered : ◌≡◌ {A = Verdict} missing_key (answered true) → ⊥
missing≢answered e = cc

invalid≢answered : ◌≡◌ {A = Verdict} invalid_key (answered true) → ⊥
invalid≢answered e = cc

no≢answered : ◌≡◌ {A = Verdict} (answered false) (answered true) → ⊥
no≢answered e = cc

module _ {A : Type 0} (valid : Option String) (req : Incoming) (method : Act A) (w : World) where
  worker_rule :
      (v : Verdict)
      → worker_guard valid req ≡ v
      → Guarded (HasKey valid req) method w (after_guard v method w)
  worker_rule missing_key e =
      turned_away _ (λ has. missing≢answered (sym e ∙ HasKey-worker_guard valid req has)) refl
  worker_rule invalid_key e =
      turned_away _ (λ has. invalid≢answered (sym e ∙ HasKey-worker_guard valid req has)) refl
  worker_rule (answered false) e =
      turned_away _ (λ has. no≢answered (sym e ∙ HasKey-worker_guard valid req has)) refl
  worker_rule (answered true) e = handled ((guards_lem valid req).0 e) refl

module _ ⦃prisma : Prisma⦄ ⦃crypto : Crypto⦄ ⦃github : GithubApi⦄ ⦃config : UrlConfig⦄
    ⦃groups : GroupBy⦄ ⦃files : GithubFiles⦄ (valid : Option String) (req : ApiRequest)
    (w : World) where
  -- A route for users runs its service, for the subject of the token, exactly when the request has an
  -- accepted token and no worker's key; one for the worker exactly when the request has the
  -- configured key. Any other request fails and writes nothing.
  pub serve_lem :
      {A B : Type 0} (call : UserCall A) (internal : InternalCall B)
      → Guarded (IsUser req) (handle call req.subject) w (serve valid req call w)
        × Guarded
            (HasKey valid req.incoming)
            (handle_internal internal)
            w
            (serve_internal valid req internal w)
  unfolding serve serve_internal jwt_guard
  serve_lem call internal = (
    jwt_rule valid req.subject (handle call) w req.incoming.worker_api_key req.incoming.jwt_allows,
    worker_rule valid req.incoming (handle_internal internal) w (worker_guard valid req.incoming)
        refl,
  )
