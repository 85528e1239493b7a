-- ===== src/OAuth/Domain.antt =====
-- core/domain/oauth_server.go: clients, authorization codes, tokens, requests and responses. Times
-- are nanoseconds since the epoch; an optional string that Go holds as "" stays a string.
use sercha_core.Base.{
  ℕ, ◌*◌, String, Bool, not, ◌&&◌, List, [], ◌∷◌, contains, ltb, str_eq, if◌then◌else◌,
}

abbrev pub second : ℕ
second = 1_000_000_000

abbrev pub minute : ℕ
minute = 60 * second

abbrev pub access_token_ttl : ℕ
access_token_ttl = 15 * minute

abbrev pub refresh_token_ttl : ℕ
refresh_token_ttl = 30 * 24 * 60 * minute

abbrev pub authorization_code_ttl : ℕ
authorization_code_ttl = 10 * minute

abbrev pub grant_type_authorization_code : String
grant_type_authorization_code = "authorization_code"

abbrev pub grant_type_refresh_token : String
grant_type_refresh_token = "refresh_token"

-- DefaultMCPScopes
abbrev pub default_mcp_scopes : List String
default_mcp_scopes = "mcp:search" ∷ "mcp:documents:read" ∷ "mcp:sources:list" ∷ []

pub record OAuthClient : Type 0 where
  pub id : String
  pub secret_hash : String
  pub name : String
  pub redirect_uris : List String
  pub grant_types : List String
  pub response_types : List String
  pub scopes : List String
  pub application_type : String
  pub token_endpoint_auth_method : String
  pub active : Bool
  pub created_at : ℕ
  pub updated_at : ℕ

unfoldable pub is_public : OAuthClient → Bool
is_public c = str_eq c.token_endpoint_auth_method "none"

unfoldable pub has_redirect_uri : OAuthClient → String → Bool
has_redirect_uri c uri = contains c.redirect_uris uri

unfoldable pub has_grant_type : OAuthClient → String → Bool
has_grant_type c gt = contains c.grant_types gt

unfoldable pub has_scope : OAuthClient → String → Bool
has_scope c scope = contains c.scopes scope

-- The scopes of the request that the client may not ask for.
unfoldable pub validate_scopes : OAuthClient → List String → List String
validate_scopes c [] = []
validate_scopes c (scope ∷ requested) =
    let invalid = validate_scopes c requested in
    if not (has_scope c scope) then scope ∷ invalid else invalid

pub record AuthorizationCode : Type 0 where
  pub code : String
  pub client_id : String
  pub user_id : String
  pub redirect_uri : String
  pub scopes : List String
  pub code_challenge : String
  pub resource : String
  pub expires_at : ℕ
  pub used : Bool
  pub created_at : ℕ

-- time.Now().After(expires_at)
abbrev pub is_expired : ℕ → ℕ → Bool
is_expired expires_at now = ltb expires_at now

pub record OAuthAccessToken : Type 0 where
  pub id : String
  pub client_id : String
  pub user_id : String
  pub scopes : List String
  pub audience : String
  pub expires_at : ℕ
  pub created_at : ℕ
  pub revoked : Bool

pub record OAuthRefreshToken : Type 0 where
  pub id : String
  pub access_token_id : String
  pub client_id : String
  pub user_id : String
  pub scopes : List String
  pub audience : String
  pub expires_at : ℕ
  pub created_at : ℕ
  pub revoked : Bool
  pub rotated_to : String

unfoldable pub is_rotated : OAuthRefreshToken → Bool
is_rotated t = not (str_eq t.rotated_to "")

-- IsValid of a refresh token
unfoldable pub is_valid : OAuthRefreshToken → ℕ → Bool
is_valid t now = not (is_expired t.expires_at now) && (not t.revoked && not (is_rotated t))

pub record ClientRegistrationRequest : Type 0 where
  pub name : String
  pub redirect_uris : List String
  pub grant_types : List String
  pub response_types : List String
  pub scopes : List String
  pub application_type : String
  pub token_endpoint_auth_method : String

pub record ClientRegistrationResponse : Type 0 where
  pub client_id : String
  pub client_secret : String
  pub name : String
  pub redirect_uris : List String
  pub grant_types : List String
  pub response_types : List String
  pub scopes : List String
  pub application_type : String
  pub token_endpoint_auth_method : String
  pub client_id_issued_at : ℕ

pub record AuthorizeRequest : Type 0 where
  pub response_type : String
  pub client_id : String
  pub redirect_uri : String
  pub scope : String
  pub state : String
  pub code_challenge : String
  pub code_challenge_method : String
  pub resource : String

pub record TokenRequest : Type 0 where
  pub grant_type : String
  pub code : String
  pub redirect_uri : String
  pub client_id : String
  pub client_secret : String
  pub code_verifier : String
  pub refresh_token : String
  pub resource : String

pub record TokenResponse : Type 0 where
  pub access_token : String
  pub token_type : String
  pub expires_in : ℕ
  pub refresh_token : String
  pub scope : String
