-- ===== src/OAuth/Exchange.antt =====
-- Token of core/services/oauth_server.go: the authorization_code and the refresh_token grant
pub mod Checks
use sercha_core.Base.{
  ℕ, ◌+◌, ◌/◌, String, Bool, false, not, ◌&&◌, some, List, invalid_client, internal, invalid_grant,
  expired_code, invalid_redirect_uri, unsupported_grant_type, invalid_code_challenge, str_eq,
  if◌then◌else◌,
}
use sercha_core.OAuth.Domain.{
  OAuthClient, AuthorizationCode, OAuthAccessToken, OAuthRefreshToken, TokenRequest, TokenResponse,
  access_token_ttl, refresh_token_ttl, second, is_public, is_expired, is_valid,
  grant_type_authorization_code, grant_type_refresh_token,
}
use sercha_core.OAuth.Scopes.{join}
use sercha_core.OAuth.External.{Claims, Crypto, Config, Draws, one}
use sercha_core.OAuth.Stores.{
  Prog, ◌>>=◌, ◌>>◌, pure, fail, require, failing_as, get_client, get_and_mark_used,
  get_refresh_token, save_access_token, save_refresh_token, rotate_refresh_token, lift, given,
}
use sercha_core.OAuth.Registration.{default_string}

unfoldable pub validate_pkce : Crypto → String → String → Bool
validate_pkce crypto verifier challenge =
    not (str_eq verifier "")
    && (not (str_eq challenge "") && str_eq (crypto.s256 verifier) challenge)

-- the secret of a confidential client
unfoldable pub check_secret : Crypto → OAuthClient → String → Prog (Unit {0})
check_secret crypto client secret = if is_public client then pure tt else do
  require (not (str_eq secret "")) invalid_client
  require (crypto.check_password client.secret_hash secret) invalid_client

-- generateAccessToken
unfoldable pub claims_of : OAuthAccessToken → ℕ → Claims
claims_of t signed_at = record {
  jti = some t.id;
  sub = some t.user_id;
  client_id = some t.client_id;
  scope = some (join t.scopes);
  aud = one t.audience;
  iat = signed_at / second;
  exp = t.expires_at / second;
}

unfoldable pub new_access_token : Draws → String → String → List String → String → OAuthAccessToken
new_access_token d client_id user_id scopes audience = record {
  id = d.uuid;
  client_id = client_id;
  user_id = user_id;
  scopes = scopes;
  audience = audience;
  expires_at = d.issued_at + access_token_ttl;
  created_at = d.access_created_at;
  revoked = false;
}

unfoldable pub new_refresh_token : Draws → OAuthAccessToken → String → OAuthRefreshToken
new_refresh_token d t id = record {
  id = id;
  access_token_id = t.id;
  client_id = t.client_id;
  user_id = t.user_id;
  scopes = t.scopes;
  audience = t.audience;
  expires_at = d.renewed_at + refresh_token_ttl;
  created_at = d.refresh_created_at;
  revoked = false;
  rotated_to = "";
}

unfoldable pub response : String → OAuthRefreshToken → TokenResponse
response jwt t = record {
  access_token = jwt;
  token_type = "Bearer";
  expires_in = access_token_ttl / second;
  refresh_token = t.id;
  scope = join t.scopes;
}

-- The part that both grants share: sign and save an access token, then draw and save a refresh
-- token for it.
unfoldable pub issue : Config → Draws → OAuthAccessToken → Prog (String × OAuthRefreshToken)
issue cfg d t = do
  jwt ← lift (given (cfg.crypto.sign (claims_of t d.signed_at)) internal)
  save_access_token t
  id ← lift (given d.random internal)
  save_refresh_token (new_refresh_token d t id)
  pure (jwt, new_refresh_token d t id)

-- request, else code, else the server's own URL
unfoldable pub audience_of : Config → TokenRequest → AuthorizationCode → String
audience_of cfg req c = default_string cfg.mcp_server_url (default_string c.resource req.resource)

-- the checks of the code against the request, in the code's order
unfoldable pub check_code : Crypto → ℕ → AuthorizationCode → TokenRequest → Prog (Unit {0})
check_code crypto now c req = do
  require (not (is_expired c.expires_at now)) expired_code
  require (str_eq c.client_id req.client_id) invalid_client
  require (str_eq c.redirect_uri req.redirect_uri) invalid_redirect_uri
  require (validate_pkce crypto req.code_verifier c.code_challenge) invalid_code_challenge

-- The grant once its code is marked as used.
unfoldable pub redeem : Config → Draws → TokenRequest → AuthorizationCode → Prog TokenResponse
redeem cfg d req c = do
  check_code cfg.crypto d.checked_at c req
  client ← failing_as invalid_client (get_client req.client_id)
  check_secret cfg.crypto client req.client_secret
  (jwt, t) ←
      issue cfg d (new_access_token d req.client_id c.user_id c.scopes (audience_of cfg req c))
  pure (response jwt t)

unfoldable pub handle_authorization_code_grant : Config → Draws → TokenRequest → Prog TokenResponse
handle_authorization_code_grant cfg d req = do
  c ← failing_as invalid_grant (get_and_mark_used req.code)
  redeem cfg d req c

-- The grant once its refresh token is read.
unfoldable pub renew : Config → Draws → TokenRequest → OAuthRefreshToken → Prog TokenResponse
renew cfg d req old = do
  require (is_valid old d.checked_at) invalid_grant
  require (str_eq old.client_id req.client_id) invalid_client
  client ← failing_as invalid_client (get_client req.client_id)
  check_secret cfg.crypto client req.client_secret
  (jwt, t) ← issue cfg d (new_access_token d req.client_id old.user_id old.scopes old.audience)
  rotate_refresh_token req.refresh_token t.id
  pure (response jwt t)

unfoldable pub handle_refresh_token_grant : Config → Draws → TokenRequest → Prog TokenResponse
handle_refresh_token_grant cfg d req = do
  old ← failing_as invalid_grant (get_refresh_token req.refresh_token)
  renew cfg d req old

unfoldable pub token : Config → Draws → TokenRequest → Prog TokenResponse
token cfg d req =
    if str_eq req.grant_type grant_type_authorization_code
    then handle_authorization_code_grant cfg d req
    else if str_eq req.grant_type grant_type_refresh_token
    then handle_refresh_token_grant cfg d req
    else fail unsupported_grant_type
