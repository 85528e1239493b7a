-- ===== src/OAuth/History/Closure.antt =====
-- What it takes for an invariant of rows to hold throughout every history of the authorization server
-- (core/services/oauth_server.go): every draft row satisfies it.
pub mod Grants
pub mod Runs
use mathlib.Core.Path.{subst}
use sercha_core.Base.{
  ℕ, String, true, ◌≡◌, refl, sym, not, unsupported_response_type, invalid_code_challenge, Option,
  none, some, List, [], ◌∷◌, All, internal, invalid_client, invalid_grant, Result, ok, err, str_eq,
  eq_iff,
}
use sercha_core.OAuth.Domain.{
  OAuthClient, AuthorizationCode, OAuthAccessToken, OAuthRefreshToken, ClientRegistrationRequest,
  AuthorizeRequest, TokenRequest, is_valid, default_mcp_scopes,
}
use sercha_core.OAuth.External.{Claims, Config, Draws}
use sercha_core.OAuth.Stores.{
  Db, Prog, failing_as, lift, given, require, get_client, get_and_mark_used, get_refresh_token,
  save_client, save_code, save_access_token, save_refresh_token, rotate_refresh_token,
  revoke_access_token, revoke_refresh_token,
}
use sercha_core.OAuth.Stores.Keeps.{
  Keeps, keeps_rules, Keeps-bind, Keeps-using, Keeps-checked, Keeps-failing_as, Gives-failing_as,
  Gives-given, Keeps-lift, Keeps-if, Keeps-pure, Keeps-fail, Keeps-require,
}
use sercha_core.OAuth.Stores.Rows.Codes
use sercha_core.OAuth.Stores.Rows.Tokens
use sercha_core.OAuth.Stores.Rows.{RowPreds, Holds, IsStable}
use sercha_core.OAuth.Registration.{
  default_list, default_string, all_known, new_client, check_registration, client_secret,
  register_client,
}
use sercha_core.OAuth.Authorization.{authorize, check_client, requested_scopes, new_code}
use sercha_core.OAuth.Authorization.Checks.{IsAllowed, check_client-Gives, check_client-Keeps}
use sercha_core.OAuth.Exchange.{
  renew, claims_of, issue, new_access_token, new_refresh_token, audience_of, check_code,
  check_secret, redeem, handle_authorization_code_grant, handle_refresh_token_grant, token,
}
use sercha_core.OAuth.Validation.{
  revoke, revoke_parsed, revoke_jti, ignoring, client_name, name_or_empty, validate_access_token,
}
use sercha_core.OAuth.History.Checks.{
  check_registration-knows, check_code-matches, check_registration-Keeps, check_code-Keeps,
  check_secret-Keeps,
}
use sercha_core.OAuth.History.{
  Op, registers, authorizes, exchanges, revokes, validates, deletes_client, revokes_all,
  cleans_codes, cleans_tokens, step, run,
}

-- Every row that an operation drafts satisfies the predicates, if the rows that it read do.
pub record IsClosed (p : RowPreds) (Fits : Op → Type 0) : Type 0 where
  pub stable : IsStable p
  pub client :
      (d : Draws) (req : ClientRegistrationRequest) (hash : String)
      → Fits (registers d req)
      → all_known (default_list default_mcp_scopes req.scopes) ≡ true
      → p.on_client d.uuid (new_client req d hash)
  pub code :
      (d : Draws) (user_id : String) (req : AuthorizeRequest) (c : OAuthClient) (code : String)
      → Fits (authorizes d user_id req)
      → d.random ≡ some code
      → p.on_client req.client_id c
      → IsAllowed req c
      → p.on_code code (new_code d code user_id req (requested_scopes c req))
  pub access_of_code :
      (cfg : Config) (d : Draws) (req : TokenRequest) (c : AuthorizationCode)
      → Fits (exchanges d req)
      → p.on_code req.code c
      → c.client_id ≡ req.client_id
      → p.on_access d.uuid
          (new_access_token d req.client_id c.user_id c.scopes (audience_of cfg req c))
  pub access_of_refresh :
      (d : Draws) (req : TokenRequest) (t : OAuthRefreshToken)
      → Fits (exchanges d req)
      → p.on_refresh req.refresh_token t
      → t.client_id ≡ req.client_id
      → p.on_access d.uuid (new_access_token d req.client_id t.user_id t.scopes t.audience)
  pub refresh :
      (d : Draws) (req : TokenRequest) (t : OAuthAccessToken) (id : String)
      → Fits (exchanges d req)
      → d.random ≡ some id
      → p.on_access d.uuid t
      → p.on_refresh id (new_refresh_token d t id)
