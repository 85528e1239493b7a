-- ===== src/OAuth/History/Closure/Grants.antt =====
-- Registration, authorization and the grants (core/services/oauth_server.go) keep a closed invariant of
-- rows.
use mathlib.Core.Path.{subst}
use sercha_core.Base.{
  String, true, ◌≡◌, refl, sym, not, unsupported_response_type, invalid_code_challenge, some,
  internal, invalid_client, invalid_grant, str_eq, eq_iff,
}
use sercha_core.OAuth.Domain.{
  AuthorizationCode, OAuthAccessToken, OAuthRefreshToken, ClientRegistrationRequest,
  AuthorizeRequest, TokenRequest, is_valid, default_mcp_scopes,
}
use sercha_core.OAuth.External.{Config, Draws}
use sercha_core.OAuth.Stores.{
  failing_as, lift, given, require, get_client, get_and_mark_used, get_refresh_token, save_client,
  save_code, save_access_token, save_refresh_token, rotate_refresh_token,
}
use sercha_core.OAuth.Stores.Keeps.{
  Keeps, Keeps-bind, Keeps-using, Keeps-checked, Keeps-failing_as, Gives-failing_as, Gives-given,
  Keeps-lift, Keeps-if, Keeps-pure, Keeps-fail, Keeps-require,
}
use sercha_core.OAuth.Stores.Rows.Codes
use sercha_core.OAuth.Stores.Rows.Tokens
use sercha_core.OAuth.Stores.Rows.{RowPreds, Holds}
use sercha_core.OAuth.Registration.{
  default_list, default_string, all_known, new_client, check_registration, client_secret,
  register_client,
}
use sercha_core.OAuth.Authorization.{authorize, check_client, requested_scopes, new_code}
use sercha_core.OAuth.Authorization.Checks.{IsAllowed, check_client-Gives, check_client-Keeps}
use sercha_core.OAuth.Exchange.{
  renew, claims_of, issue, new_access_token, new_refresh_token, audience_of, check_code,
  check_secret, redeem, handle_authorization_code_grant, handle_refresh_token_grant, token,
}
use sercha_core.OAuth.History.Checks.{
  check_registration-knows, check_code-matches, check_registration-Keeps, check_code-Keeps,
  check_secret-Keeps,
}
use sercha_core.OAuth.History.{Op, registers, authorizes, exchanges}
use sercha_core.OAuth.History.Closure.{IsClosed}

module _ (p : RowPreds) (Fits : Op → Type 0) (cfg : Config) (k : IsClosed p Fits) where
  pub register_client-Holds :
      (d : Draws) (req : ClientRegistrationRequest)
      → Fits (registers d req)
      → Keeps (Holds p) (register_client cfg d req)
  unfolding register_client
  register_client-Holds d req fits =
      Keeps-using (Holds p) (check_registration req) _
        (λ _. all_known (default_list default_mcp_scopes req.scopes) ≡ true)
        (check_registration-Keeps req)
        (record { at = λ db h u db' q. check_registration-knows req db db' u q })
        λ _ known.
          let auth_method = default_string "none" req.token_endpoint_auth_method in
          Keeps-bind (lift (client_secret cfg d auth_method)) _ (Keeps-lift _)
            λ (r : String × String).
              let c = new_client req d r.1 in
              Keeps-bind (save_client d.saved_at c) _
                (Codes.save_client-Holds p k.stable d.saved_at c
                  (unfold new_client in k.client d req r.1 fits known))
                (λ _. Keeps-pure _)

  pub authorize-Holds :
      (d : Draws) (user_id : String) (req : AuthorizeRequest)
      → Fits (authorizes d user_id req)
      → Keeps (Holds p) (authorize d user_id req)
  unfolding authorize
  authorize-Holds d user_id req fits =
      Keeps-bind (require (str_eq req.response_type "code") unsupported_response_type) _
        (Keeps-require _ _)
        λ _.
          Keeps-bind (require (str_eq req.code_challenge_method "S256") invalid_code_challenge) _
            (Keeps-require _ _)
            λ _.
              Keeps-bind (require (not (str_eq req.code_challenge "")) invalid_code_challenge) _
                (Keeps-require _ _)
                λ _.
                  Keeps-using (Holds p) (failing_as invalid_client (get_client req.client_id)) _
                    (p.on_client req.client_id)
                    (Keeps-failing_as _ _ (Codes.get_client-Holds p k.stable req.client_id))
                    (Gives-failing_as (Holds p) _ _ _
                      (Codes.get_client-Gives p k.stable req.client_id))
                    λ c known.
                      Keeps-using (Holds p) (check_client c req) _ (λ _. IsAllowed req c)
                        (check_client-Keeps c req) (check_client-Gives c req)
                        λ _ allowed.
                          Keeps-using (Holds p) (lift (given d.random internal)) _
                            (λ code. d.random ≡ some code) (Keeps-lift _)
                            (Gives-given (Holds p) d.random internal)
                            λ code drawn.
                              Keeps-bind
                                (save_code (new_code d code user_id req (requested_scopes c req))) _
                                (Codes.save_code-Holds p k.stable
                                  (new_code d code user_id req (requested_scopes c req))
                                  (unfold new_code in
                                    k.code d user_id req c code fits drawn known allowed))
                                (λ _. Keeps-pure _)

  -- What both grants do last, for a drafted access token.
  issue-Holds :
      (d : Draws) (req : TokenRequest) (t : OAuthAccessToken)
      → Fits (exchanges d req)
      → t.id ≡ d.uuid
      → p.on_access d.uuid t
      → Keeps (Holds p) (issue cfg d t)
  unfolding issue
  issue-Holds d req t fits named drafted =
      Keeps-bind (lift (given (cfg.crypto.sign (claims_of t d.signed_at)) internal)) _
        (Keeps-lift _)
        λ jwt.
          Keeps-bind (save_access_token t) _
            (Tokens.save_access_token-Holds p k.stable t
              (subst (λ (x : String). p.on_access x t) (sym named) drafted))
            λ _.
              Keeps-using (Holds p) (lift (given d.random internal)) _ (λ id. d.random ≡ some id)
                (Keeps-lift _) (Gives-given (Holds p) d.random internal)
                λ id drawn.
                  let r = new_refresh_token d t id in
                  Keeps-bind (save_refresh_token r) _
                    (Tokens.save_refresh_token-Holds p k.stable r
                      (unfold new_refresh_token in k.refresh d req t id fits drawn drafted))
                    (λ _. Keeps-pure _)

  pub redeem-Holds :
      (d : Draws) (req : TokenRequest) (c : AuthorizationCode)
      → Fits (exchanges d req)
      → p.on_code req.code c
      → Keeps (Holds p) (redeem cfg d req c)
  unfolding redeem
  redeem-Holds d req c fits known =
      Keeps-using (Holds p) (check_code cfg.crypto d.checked_at c req) _
        (λ _. c.client_id ≡ req.client_id) (check_code-Keeps cfg.crypto d.checked_at c req)
        (record {
          at = λ db h u db' q. check_code-matches cfg.crypto d.checked_at c req db db' u q;
        })
        λ _ same_client.
          Keeps-bind (failing_as invalid_client (get_client req.client_id)) _
            (Keeps-failing_as _ _ (Codes.get_client-Holds p k.stable req.client_id))
            λ client.
              Keeps-bind (check_secret cfg.crypto client req.client_secret) _
                (check_secret-Keeps cfg.crypto client req.client_secret)
                λ _.
                  let t =
                    new_access_token d req.client_id c.user_id c.scopes (audience_of cfg req c) in
                  Keeps-bind (issue cfg d t) _
                    (issue-Holds d req t fits (unfold new_access_token in refl)
                      (k.access_of_code cfg d req c fits known same_client))
                    (λ _. Keeps-pure _)

  code_grant-Holds :
      (d : Draws) (req : TokenRequest)
      → Fits (exchanges d req)
      → Keeps (Holds p) (handle_authorization_code_grant cfg d req)
  unfolding handle_authorization_code_grant
  code_grant-Holds d req fits =
      Keeps-using (Holds p) (failing_as invalid_grant (get_and_mark_used req.code)) _
        (p.on_code req.code)
        (Keeps-failing_as _ _ (Codes.get_and_mark_used-Holds p k.stable req.code))
        (Gives-failing_as (Holds p) _ _ _ (Codes.get_and_mark_used-Gives p k.stable req.code))
        (λ c known. redeem-Holds d req c fits known)

  refresh_grant-Holds :
      (d : Draws) (req : TokenRequest)
      → Fits (exchanges d req)
      → Keeps (Holds p) (handle_refresh_token_grant cfg d req)
  unfolding handle_refresh_token_grant renew
  refresh_grant-Holds d req fits =
      Keeps-using (Holds p) (failing_as invalid_grant (get_refresh_token req.refresh_token)) _
        (p.on_refresh req.refresh_token)
        (Keeps-failing_as _ _ (Tokens.get_refresh_token-Holds p k.stable req.refresh_token))
        (Gives-failing_as (Holds p) _ _ _
          (Tokens.get_refresh_token-Gives p k.stable req.refresh_token))
        λ old known.
          Keeps-bind (require (is_valid old d.checked_at) invalid_grant) _ (Keeps-require _ _) λ _.
            Keeps-checked (Holds p) (str_eq old.client_id req.client_id) invalid_client _
              λ same_client.
                Keeps-bind (failing_as invalid_client (get_client req.client_id)) _
                  (Keeps-failing_as _ _ (Codes.get_client-Holds p k.stable req.client_id))
                  λ client.
                    Keeps-bind (check_secret cfg.crypto client req.client_secret) _
                      (check_secret-Keeps cfg.crypto client req.client_secret)
                      λ _.
                        let t =
                          new_access_token d req.client_id old.user_id old.scopes old.audience in
                        Keeps-bind (issue cfg d t) _
                          (issue-Holds d req t fits (unfold new_access_token in refl)
                            (k.access_of_refresh d req old fits known ((eq_iff _ _).0 same_client)))
                          λ (r : String × OAuthRefreshToken).
                            Keeps-bind (rotate_refresh_token req.refresh_token (r.1).id) _
                              (Tokens.rotate_refresh_token-Holds p k.stable req.refresh_token
                                (r.1).id)
                              (λ _. Keeps-pure _)

  pub token-Holds :
      (d : Draws) (req : TokenRequest) → Fits (exchanges d req) → Keeps (Holds p) (token cfg d req)
  unfolding token
  token-Holds d req fits =
      Keeps-if _ _ _ (code_grant-Holds d req fits)
        (Keeps-if _ _ _ (refresh_grant-Holds d req fits) (Keeps-fail _))
