-- ===== src/GithubSignIn/Landing.antt =====
-- Where the callback of GitHub lands, and what it leaves behind.
use code2cloud.Prelude.{
  String, ◌≡◌, refl, ap, subst, Option, none, some, inl, inr, non_empty, Option-cases, sym,
}
use code2cloud.Prisma.{Prisma}
use code2cloud.World.{World, Outcome, Act, ◌>>=◌, pure, bad_request}
use code2cloud.World.Laws.{require_rule, bind_rule}
use code2cloud.Auth.{AuthApi, Tokens}
use code2cloud.Auth.Accounts.{CompleteGithubPayload, process_github_callback}
use code2cloud.Auth.SignedIn.{IsSignedIn}
use code2cloud.Auth.Callback.{IsChosen, IsRefused, CallbackOutcome, process_github_callback_lem}
use code2cloud.GithubSignIn.Exchange.{
  GithubOauth, Config, ExchangedUser, exchange, exchange_code_for_user,
}
use code2cloud.GithubSignIn.Redirects.{
  JwtService, CallbackQuery, final_installation, page, redirect_for, payload_of, current_user_of,
  sign_in_by_code, or_auth_failed, github_callback,
}

module _ ⦃prisma : Prisma⦄ ⦃api : AuthApi⦄ ⦃github : GithubOauth⦄ ⦃jwt : JwtService⦄
    (config : Config) (query : CallbackQuery) (w : World) where
  abbrev session : Option String
  session = current_user_of config query.access_cookie

  abbrev installation_of : ExchangedUser → Option String
  installation_of found = final_installation query.installation_id found.installation_id

  pub data Landing (answer : String × World) : Type 0 where
    no_code :
        non_empty query.code ≡ none
        → answer ≡ (page config "/auth?error=no_code", w)
        → Landing answer
    not_exchanged :
        (code : String)
        → non_empty query.code ≡ some code
        → exchange config code ≡ none
        → answer ≡ (page config "/auth?error=auth_failed", w)
        → Landing answer
    refused :
        (code : String) (found : ExchangedUser)
        → non_empty query.code ≡ some code
        → exchange config code ≡ some found
        → IsRefused (payload_of found) (installation_of found) session w.db
        → answer ≡ (page config "/auth?error=auth_failed", w)
        → Landing answer
    signed_in :
        (code : String) (found : ExchangedUser) (user_id : String) (tokens : Tokens)
        → non_empty query.code ≡ some code
        → exchange config code ≡ some found
        → IsChosen (payload_of found) (installation_of found) session w.db user_id
        → IsSignedIn
            (payload_of found)
            (installation_of found)
            user_id
            w.db.git_accounts
            tokens
            answer.1
        → answer.0 ≡ redirect_for config (non_empty query.installation_id) tokens
        → Landing answer

  module _ (code : String) (given : non_empty query.code ≡ some code) where
    IsLanded : Outcome String → Type 0
    IsLanded o = Landing (or_auth_failed config o)

    after_exchange : ExchangedUser → Act String
    after_exchange found = do
      tokens ← process_github_callback (payload_of found) (installation_of found) session
      pure (redirect_for config (non_empty query.installation_id) tokens)

    after_exchange-IsLanded :
        (found : ExchangedUser)
        → exchange config code ≡ some found
        → IsLanded (after_exchange found w)
    unfolding IsLanded after_exchange
    after_exchange-IsLanded found known =
        bind_rule callback answer_of w IsLanded
          (λ tokens w' e.
            let (user_id, chosen, after) =
              subst (CallbackOutcome payload installation session w) e outcome in
            signed_in code found user_id tokens given known chosen after refl)
          (λ x w' e.
            let (same, why) = subst (CallbackOutcome payload installation session w) e outcome in
            refused code found given known why
              (ap (λ (v : World). (page config "/auth?error=auth_failed", v)) same))
      where
        payload : CompleteGithubPayload
        payload = payload_of found

        installation : Option String
        installation = installation_of found

        callback : Act Tokens
        callback = process_github_callback payload installation session

        answer_of : Tokens → Act String
        answer_of tokens = pure (redirect_for config (non_empty query.installation_id) tokens)

        outcome : CallbackOutcome payload installation session w (callback w)
        outcome = process_github_callback_lem payload installation session w

    sign_in_by_code-IsLanded : IsLanded (sign_in_by_code config query code w)
    unfolding IsLanded sign_in_by_code exchange_code_for_user after_exchange
    sign_in_by_code-IsLanded =
        require_rule IsLanded (bad_request "Failed to exchange GitHub code") w
          (exchange config code) after_exchange (λ missing. not_exchanged code given missing refl)
          (λ found known. after_exchange-IsLanded found known)

  -- The callback of GitHub answers in four ways. Without a code, with a code that GitHub does not
  -- exchange, or for a user who cannot be determined (an unknown user of the session's cookie, or
  -- no session and no address) it redirects to the page of that error and writes nothing. Otherwise
  -- the user of the session, of the GitHub account, of the address, or a new one is signed in and
  -- the account linked, and the browser is sent to the page that takes the user's tokens, or, where
  -- an installation was given, to the page that closes the window.
  pub github_callback_lem : Landing (github_callback config query w)
  unfolding github_callback IsLanded
  github_callback_lem = elim (Option-cases (non_empty query.code)) [
    | inl missing ↦ no_code missing (rw (missing, github_callback) refl)
    | inr (code, given) ↦
        subst
          (λ (o : Option String). Landing (elim o [
            | none ↦ (page config "/auth?error=no_code", w)
            | some code ↦ or_auth_failed config (sign_in_by_code config query code w)
          ]))
          (sym given) (sign_in_by_code-IsLanded code given)
  ]
