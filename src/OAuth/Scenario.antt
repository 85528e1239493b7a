-- ===== src/OAuth/Scenario.antt =====
-- A run of the authorization server, from the registration of a client to an exchange of its code, for
-- the tests of core/services/oauth_server.go.
use sercha_core.Base.{true, ℕ, String, Bool, false, some, List, [], ◌∷◌, str_eq}
use sercha_core.OAuth.Domain.{
  OAuthClient, AuthorizationCode, OAuthAccessToken, OAuthRefreshToken, ClientRegistrationRequest,
  AuthorizeRequest, TokenRequest,
}
use sercha_core.OAuth.External.{Claims, Config, Crypto, Draws, missing}
use sercha_core.OAuth.Stores.{mark_used, Db}
use sercha_core.OAuth.History.{Op, registers, authorizes, exchanges}
use sercha_core.OAuth.History.Consent.{opening}

-- A signed token is its ID, and every text is a signed token of that ID.
abbrev pub named_claims : String → Claims
named_claims id = record {
  jti = some id;
  sub = some "u1";
  client_id = some "c1";
  scope = some "mcp:search";
  aud = missing;
  iat = 0;
  exp = 0;
}

abbrev pub toy_crypto : Crypto
toy_crypto = record {
  hash_password = some;
  check_password = str_eq;
  s256 = λ v. v;
  sign = λ c. c.jti;
  parse = λ now text. some (named_claims text);
}

abbrev pub toy : Config
toy = record { crypto = toy_crypto; mcp_server_url = "http://mcp" }

abbrev pub draws : String → String → Draws
draws uuid random = record {
  checked_at = 5;
  uuid = uuid;
  issued_at = 10;
  saved_at = 11;
  signed_at = 12;
  access_created_at = 13;
  random = some random;
  renewed_at = 14;
  refresh_created_at = 15;
}

abbrev pub registration : ClientRegistrationRequest
registration = record {
  name = "app";
  redirect_uris = "http://app" ∷ [];
  grant_types = [];
  response_types = [];
  scopes = "mcp:search" ∷ [];
  application_type = "";
  token_endpoint_auth_method = "";
}

abbrev pub asks_code : AuthorizeRequest
asks_code = record {
  response_type = "code";
  client_id = "c1";
  redirect_uri = "http://app";
  scope = "mcp:search";
  state = "s";
  code_challenge = "pkce";
  code_challenge_method = "S256";
  resource = "";
}

abbrev pub asks_token : String → String → String → TokenRequest
asks_token grant code renewal = record {
  grant_type = grant;
  code = code;
  redirect_uri = "http://app";
  client_id = "c1";
  client_secret = "";
  code_verifier = "pkce";
  refresh_token = renewal;
  resource = "";
}

abbrev pub up : ℕ → Bool
up n = false

abbrev pub start : Db
start = opening [] up

abbrev pub registered_ops : List Op
registered_ops = registers (draws "c1" "secret") registration ∷ []

abbrev pub authorized_ops : List Op
authorized_ops =
    registers (draws "c1" "secret") registration
    ∷ authorizes (draws "x" "code1") "u1" asks_code
    ∷ []

abbrev pub redeemed_ops : List Op
redeemed_ops =
    registers (draws "c1" "secret") registration
    ∷ authorizes (draws "x" "code1") "u1" asks_code
    ∷ exchanges (draws "t1" "r1") (asks_token "authorization_code" "code1" "")
    ∷ []

abbrev pub asks_unknown : AuthorizeRequest
asks_unknown = record asks_code { client_id = "c2" }

abbrev pub later_ops : List Op
later_ops =
    authorizes (draws "y" "code2") "u2" asks_code
    ∷ exchanges (draws "t3" "r3") (asks_token "authorization_code" "code2" "")
    ∷ []

abbrev pub first_client : OAuthClient
first_client = record {
  id = "c1";
  secret_hash = "";
  name = "app";
  redirect_uris = "http://app" ∷ [];
  grant_types = "authorization_code" ∷ [];
  response_types = "code" ∷ [];
  scopes = "mcp:search" ∷ [];
  application_type = "native";
  token_endpoint_auth_method = "none";
  active = true;
  created_at = 10;
  updated_at = 11;
}

abbrev pub first_code : AuthorizationCode
first_code = record {
  code = "code1";
  client_id = "c1";
  user_id = "u1";
  redirect_uri = "http://app";
  scopes = "mcp:search" ∷ [];
  code_challenge = "pkce";
  resource = "";
  expires_at = 600_000_000_010;
  used = false;
  created_at = 13;
}

abbrev pub first_token : OAuthAccessToken
first_token = record {
  id = "t1";
  client_id = "c1";
  user_id = "u1";
  scopes = "mcp:search" ∷ [];
  audience = "http://mcp";
  expires_at = 900_000_000_010;
  created_at = 13;
  revoked = false;
}

abbrev pub first_renewal : OAuthRefreshToken
first_renewal = record {
  id = "r1";
  access_token_id = "t1";
  client_id = "c1";
  user_id = "u1";
  scopes = "mcp:search" ∷ [];
  audience = "http://mcp";
  expires_at = 2_592_000_000_000_014;
  created_at = 15;
  revoked = false;
  rotated_to = "";
}

-- The states after each step.
abbrev pub registered_db : Db
registered_db = record start { clients = ("c1", first_client) ∷ []; calls = 1 }

abbrev pub authorized_db : Db
authorized_db = record registered_db { codes = ("code1", first_code) ∷ []; calls = 3 }

abbrev pub redeemed_db : Db
redeemed_db = record authorized_db {
  codes = ("code1", mark_used first_code) ∷ [];
  access_tokens = ("t1", first_token) ∷ [];
  refresh_tokens = ("r1", first_renewal) ∷ [];
  calls = 7;
}
