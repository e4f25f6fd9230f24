-- ===== src/Webhooks/Signature.antt =====
-- apps/api/src/webhooks/webhooks.controller.ts, and `verifySignature` of webhooks.service.ts: which
-- requests reach the push handler.
use Prim.Native.String.{[] as nil, ◌∷◌ as cons, ◌++◌}
use text.Mathlib.TextLemmas.{cons-append}
use mathlib.Core.Bool.{false≢true}
use code2cloud.Prelude.{
  ℕ, String, ◌≡◌, ◌↔◌, refl, sym, ◌∙◌, ap, Bool, true, false, Option, none, some, ◌==◌, ◌⊎◌, inl,
  inr, Bool-cases, eq_iff, if◌then◌else◌,
}
use code2cloud.Prisma.{Prisma}
use code2cloud.World.{World, Outcome, done, fail, Act, pure, ◌>>=◌, ◌>>◌}
use code2cloud.Github.{GithubApi}
use code2cloud.Encryption.{Crypto}
use code2cloud.Webhooks.{PushEventPayload, handle_push_event}

-- Node's crypto: an HMAC as hexadecimal digits, and the comparison of two buffers, a throw if their
-- lengths differ.
pub record Hmac : Type 0 where
  pub hex_hmac : (secret body : String) → String
  pub timing_safe_equal : (a b : String) → Option Bool
  pub timing_safe_equal_true : (a b : String) → timing_safe_equal a b ≡ some true → a ≡ b
  pub timing_safe_equal_same : (a : String) → timing_safe_equal a a ≡ some true

-- The request: `body` is the parsed raw body.
pub record HookRequest : Type 0 where
  pub raw_body : Option String
  pub event : String
  pub signature : Option String
  pub body : PushEventPayload

abbrev equal_or_false : Option Bool → Bool
equal_or_false none = false
equal_or_false (some b) = b

equal_or_false-true : (o : Option Bool) → equal_or_false o ≡ true → o ≡ some true
equal_or_false-true none e = absurd (false≢true e)
equal_or_false-true (some b) e = ap some e

module _ ⦃hmac : Hmac⦄ (secret : String) where
  abbrev pub expected : String → String
  expected body = "sha256=" ++ hmac.hex_hmac secret body

  unfoldable pub verify_signature : String → Option String → Bool
  verify_signature body none = false
  verify_signature body (some s) =
      if s == "" then false else equal_or_false (hmac.timing_safe_equal s (expected body))

module _ ⦃prisma : Prisma⦄ ⦃crypto : Crypto⦄ ⦃github : GithubApi⦄ where
  -- The switch on the event: only a push does more than to log.
  abbrev pub route : Bool → PushEventPayload → Act ℕ
  route true body = do handle_push_event body; pure 200
  route false body = pure 200

  abbrev pub signed_event : Bool → HookRequest → Act ℕ
  signed_event true req = route (req.event == "push") req.body
  signed_event false req = pure 401

  module _ ⦃hmac : Hmac⦄ (secret : String) where
    abbrev pub answer : Option String → HookRequest → Act ℕ
    answer none req = pure 400
    answer (some raw) req = signed_event (verify_signature secret raw req.signature) req

    -- The HTTP status of the answer.
    unfoldable pub handle_webhook : HookRequest → Act ℕ
    handle_webhook req = answer req.raw_body req

abbrev is_empty_text : String → Bool
is_empty_text nil = true
is_empty_text (cons c s) = false

-- The signature is that of the body under the secret.
abbrev pub IsSigned : ⦃hmac : Hmac⦄ → String → String → Option String → Type 0
IsSigned secret raw signature = signature ≡ some (expected secret raw)

module _ ⦃hmac : Hmac⦄ (secret raw : String) where
  not_empty : (t : String) → is_empty_text ("sha256=" ++ t) ≡ false
  not_empty t = rw cons-append refl

  prefix_nonempty : (t : String) → ("sha256=" ++ t) == "" ≡ false
  prefix_nonempty t = elim (Bool-cases (("sha256=" ++ t) == "")) [
    | inr differ ↦ differ
    | inl same ↦ absurd (false≢true (sym (not_empty t) ∙ ap is_empty_text ((eq_iff _ _).0 same)))
  ]

  verify_signature_sound :
      (signature : Option String)
      → verify_signature secret raw signature ≡ true
      → IsSigned secret raw signature
  unfolding verify_signature
  verify_signature_sound none e = absurd (false≢true e)
  verify_signature_sound (some s) e = elim (Bool-cases (s == "")) [
    | inl empty ↦ absurd (false≢true (rw⁻¹ e (rw empty refl)))
    | inr some_text ↦ ap some (
        hmac.timing_safe_equal_true s (expected secret raw)
          (equal_or_false-true _ (rw⁻¹ e (rw some_text refl))))
  ]

  verify_signature_complete : verify_signature secret raw (some (expected secret raw)) ≡ true
  unfolding verify_signature
  verify_signature_complete =
      rw
        (
          prefix_nonempty (hmac.hex_hmac secret raw),
          hmac.timing_safe_equal_same (expected secret raw),
        )
        refl

  -- A signature is accepted exactly if it is that of the body under the secret.
  pub verify_signature_lem :
      (signature : Option String)
      → (verify_signature secret raw signature ≡ true) ↔ IsSigned secret raw signature
  verify_signature_lem signature = (
    verify_signature_sound signature,
    λ same. ap (verify_signature secret raw) same ∙ verify_signature_complete,
  )

-- What a request may answer, and the world that it leaves.
abbrev pub HookOutcome :
    ⦃hmac : Hmac⦄
    → ⦃prisma : Prisma⦄ → ⦃crypto : Crypto⦄ → ⦃github : GithubApi⦄ → String
    → HookRequest
    → World
    → Outcome ℕ
    → Type 0
HookOutcome secret req w (done status w') =
    (w' ≡ w)
    ⊎ ((raw : String) × (req.raw_body ≡ some raw)
        × IsSigned secret raw req.signature
        × (req.event ≡ "push")
        × (handle_push_event req.body w ≡ done tt w'))
HookOutcome secret req w (fail e w') =
    (raw : String) × (req.raw_body ≡ some raw)
    × IsSigned secret raw req.signature
    × (req.event ≡ "push")
    × (handle_push_event req.body w ≡ fail e w')

module _ ⦃hmac : Hmac⦄ ⦃prisma : Prisma⦄ ⦃crypto : Crypto⦄ ⦃github : GithubApi⦄ (secret : String)
    (req : HookRequest) (w : World) where
  signed_push :
      (raw : String)
      → req.raw_body ≡ some raw
      → IsSigned secret raw req.signature
      → req.event ≡ "push"
      → (o : Outcome (Unit {0})) → handle_push_event req.body w ≡ o
      → HookOutcome secret req w (route true req.body w)
  signed_push raw body signed push (done _ w') ran =
      rw (ran, ◌>>=◌) (inr (raw, body, signed, push, ran))
  signed_push raw body signed push (fail e w') ran = rw (ran, ◌>>=◌) (raw, body, signed, push, ran)

  checked :
      (raw : String)
      → req.raw_body ≡ some raw
      → HookOutcome secret req w (signed_event (verify_signature secret raw req.signature) req w)
  checked raw body = elim (Bool-cases (verify_signature secret raw req.signature)) [
    | inr forged ↦ rw forged (inl refl)
    | inl valid ↦ elim (Bool-cases (req.event == "push")) [
      | inr other ↦ rw (valid, other) (inl refl)
      | inl push ↦
          rw (valid, push)
            (signed_push raw body ((verify_signature_lem secret raw req.signature).0 valid)
              ((eq_iff _ _).0 push) _ refl)
    ]
  ]

  answered :
      (o : Option String) → req.raw_body ≡ o → HookOutcome secret req w (answer secret o req w)
  answered none missing = inl refl
  answered (some raw) body = checked raw body

  -- A request changes the world only as the handler of pushes does, and only if it is a push with a
  -- body that is signed under the secret.
  pub handle_webhook_lem : HookOutcome secret req w (handle_webhook secret req w)
  unfolding handle_webhook
  handle_webhook_lem = answered req.raw_body refl
