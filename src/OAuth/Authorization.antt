-- ===== src/OAuth/Authorization.antt =====
-- Authorize of core/services/oauth_server.go
pub mod Checks
use sercha_core.Base.{
  ◌+◌, String, false, not, List, invalid_client, internal, invalid_scope, invalid_redirect_uri,
  unsupported_grant_type, unsupported_response_type, invalid_code_challenge, Result, str_eq,
}
use sercha_core.OAuth.Domain.{
  OAuthClient, AuthorizationCode, AuthorizeRequest, authorization_code_ttl,
  grant_type_authorization_code, has_redirect_uri, has_grant_type, validate_scopes,
}
use sercha_core.OAuth.Scopes.{parse_scopes}
use sercha_core.OAuth.External.{Draws}
use sercha_core.OAuth.Stores.{
  Prog, ◌>>=◌, ◌>>◌, pure, require, failing_as, get_client, save_code, lift, given,
}
use sercha_core.OAuth.Registration.{default_list, is_empty}

unfoldable pub requested_scopes : OAuthClient → AuthorizeRequest → List String
requested_scopes c req = default_list c.scopes (parse_scopes req.scope)

unfoldable pub new_code :
    Draws → String → String → AuthorizeRequest → List String → AuthorizationCode
new_code d code user_id req scopes = record {
  code = code;
  client_id = req.client_id;
  user_id = user_id;
  redirect_uri = req.redirect_uri;
  scopes = scopes;
  code_challenge = req.code_challenge;
  resource = req.resource;
  expires_at = d.issued_at + authorization_code_ttl;
  used = false;
  created_at = d.access_created_at;
}

-- the checks of the request against the client that was found, in the code's order
unfoldable pub check_client : OAuthClient → AuthorizeRequest → Prog (Unit {0})
check_client c req = do
  require c.active invalid_client
  require (has_redirect_uri c req.redirect_uri) invalid_redirect_uri
  require (has_grant_type c grant_type_authorization_code) unsupported_grant_type
  require (is_empty (validate_scopes c (requested_scopes c req))) invalid_scope

unfoldable pub authorize : Draws → String → AuthorizeRequest → Prog String
authorize d user_id req = do
  require (str_eq req.response_type "code") unsupported_response_type
  require (str_eq req.code_challenge_method "S256") invalid_code_challenge
  require (not (str_eq req.code_challenge "")) invalid_code_challenge
  client ← failing_as invalid_client (get_client req.client_id)
  check_client client req
  code ← lift (given d.random internal)
  save_code (new_code d code user_id req (requested_scopes client req))
  pure code
