-- ===== src/OAuth/Registration.antt =====
-- RegisterClient and GetClientPublicInfo of core/services/oauth_server.go
use sercha_core.Base.{
  ◌/◌, String, Bool, true, not, ◌||◌, ◌&&◌, none, some, List, [], ◌∷◌, contains, invalid_input,
  invalid_scope, not_found, internal, Result, ok, err, str_eq, if◌then◌else◌,
}
use sercha_core.OAuth.Domain.{
  OAuthClient, ClientRegistrationRequest, ClientRegistrationResponse, default_mcp_scopes,
  grant_type_authorization_code, second,
}
use sercha_core.OAuth.External.{Config, Draws}
use sercha_core.OAuth.Stores.{Prog, ◌>>=◌, ◌>>◌, pure, require, save_client, get_client, lift}

-- `if len(xs) == 0 { xs = d }`
abbrev pub default_list : List String → List String → List String
default_list d [] = d
default_list d (x ∷ xs) = x ∷ xs

-- `if s == "" { s = d }`
abbrev pub default_string : String → String → String
default_string d s = if str_eq s "" then d else s

abbrev pub is_empty : List String → Bool
is_empty [] = true
is_empty (x ∷ xs) = Bool.false

-- every scope is a known MCP scope
unfoldable pub all_known : List String → Bool
all_known [] = true
all_known (scope ∷ scopes) = contains default_mcp_scopes scope && all_known scopes

-- The plain secret and its hash; both "" for a public client.
unfoldable pub client_secret : Config → Draws → String → Result (String × String)
client_secret cfg d auth_method =
    if str_eq auth_method "client_secret_post"
    then elim d.random [
      | none ↦ err internal
      | some plain ↦ elim (cfg.crypto.hash_password plain) [
        | none ↦ err internal
        | some hash ↦ ok (plain, hash)
      ]
    ]
    else ok ("", "")

unfoldable pub new_client : ClientRegistrationRequest → Draws → String → OAuthClient
new_client req d secret_hash = record {
  id = d.uuid;
  secret_hash = secret_hash;
  name = req.name;
  redirect_uris = req.redirect_uris;
  grant_types = default_list (grant_type_authorization_code ∷ []) req.grant_types;
  response_types = default_list ("code" ∷ []) req.response_types;
  scopes = default_list default_mcp_scopes req.scopes;
  application_type = default_string "native" req.application_type;
  token_endpoint_auth_method = default_string "none" req.token_endpoint_auth_method;
  active = true;
  created_at = d.issued_at;
  updated_at = d.issued_at;
}

unfoldable pub registered : OAuthClient → String → ClientRegistrationResponse
registered c plain = record {
  client_id = c.id;
  client_secret = plain;
  name = c.name;
  redirect_uris = c.redirect_uris;
  grant_types = c.grant_types;
  response_types = c.response_types;
  scopes = c.scopes;
  application_type = c.application_type;
  token_endpoint_auth_method = c.token_endpoint_auth_method;
  client_id_issued_at = c.created_at / second;
}

-- the checks of the request, in the code's order
unfoldable pub check_registration : ClientRegistrationRequest → Prog (Unit {0})
check_registration req = do
  let application_type = default_string "native" req.application_type
  let auth_method = default_string "none" req.token_endpoint_auth_method
  require (not (str_eq req.name "")) invalid_input
  require (not (is_empty req.redirect_uris)) invalid_input
  require (all_known (default_list default_mcp_scopes req.scopes)) invalid_scope
  require (str_eq application_type "native" || str_eq application_type "web") invalid_input
  require (str_eq auth_method "none" || str_eq auth_method "client_secret_post") invalid_input

unfoldable pub register_client :
    Config → Draws → ClientRegistrationRequest → Prog ClientRegistrationResponse
register_client cfg d req = do
  check_registration req
  (plain, hash) ← lift (client_secret cfg d (default_string "none" req.token_endpoint_auth_method))
  let client = new_client req d hash
  save_client d.saved_at client
  pure (registered client plain)

pub record ClientPublicInfo : Type 0 where
  pub client_id : String
  pub name : String
  pub application_type : String

unfoldable pub get_client_public_info : String → Prog ClientPublicInfo
get_client_public_info client_id = do
  client ← get_client client_id
  require client.active not_found
  pure (record {
    client_id = client.id;
    name = client.name;
    application_type = client.application_type;
  })
