-- ===== src/OAuth/Validation.antt =====
-- Revoke and ValidateAccessToken of core/services/oauth_server.go
pub mod Granted
use sercha_core.Base.{
  ℕ, String, not, Option, none, some, List, [], ◌∷◌, token_invalid, token_revoked, token_expired,
  Result, ok, err, str_eq,
}
use sercha_core.OAuth.Domain.{OAuthClient, is_expired}
use sercha_core.OAuth.Scopes.{fields}
use sercha_core.OAuth.External.{Claims, Config, Audience, missing, one, many}
use sercha_core.OAuth.Stores.{
  Db, Prog, ◌>>=◌, ◌>>◌, pure, require, failing_as, get_client, get_access_token,
  revoke_access_token, revoke_refresh_token, lift, given,
}

-- `_ = call`: the error is dropped
abbrev pub ignoring : {A : Type 0} → Prog A → Prog (Unit {0})
ignoring m db = (ok tt, (m db).1)

abbrev pub revoke_jti : Option String → Prog (Unit {0})
revoke_jti none = pure tt
revoke_jti (some jti) = ignoring (revoke_access_token jti)

unfoldable pub revoke_parsed : String → Option Claims → Prog (Unit {0})
revoke_parsed text none = ignoring (revoke_refresh_token text)
revoke_parsed text (some claims) = revoke_jti claims.jti

-- An access token if it parses as a signed token at `now`, else the ID of a refresh token.
unfoldable pub revoke : Config → ℕ → String → Prog (Unit {0})
revoke cfg now text = revoke_parsed text (cfg.crypto.parse now text)

pub record OAuthTokenInfo : Type 0 where
  pub user_id : String
  pub client_id : String
  pub client_name : String
  pub scopes : List String
  pub audience : String

abbrev pub string_or_empty : Option String → String
string_or_empty none = ""
string_or_empty (some s) = s

abbrev pub audience_string : Audience → String
audience_string missing = ""
audience_string (one s) = s
audience_string (many []) = ""
audience_string (many (s ∷ rest)) = string_or_empty s

-- The name of the client, "" where it cannot be read.
abbrev pub name_or_empty : Result OAuthClient × Db → Result String × Db
name_or_empty (ok c, db) = (ok c.name, db)
name_or_empty (err e, db) = (ok "", db)

abbrev pub client_name : String → Prog String
client_name id db = name_or_empty (get_client id db)

-- `parsed_at` is the reading that the parser compares the expiry claim with.
unfoldable pub validate_access_token : Config → ℕ → ℕ → String → Prog OAuthTokenInfo
validate_access_token cfg parsed_at now text = do
  claims ← lift (given (cfg.crypto.parse parsed_at text) token_invalid)
  jti ← lift (given claims.jti token_invalid)
  stored ← failing_as token_invalid (get_access_token jti)
  require (not stored.revoked) token_revoked
  require (not (is_expired stored.expires_at now)) token_expired
  sub ← lift (given claims.sub token_invalid)
  client_id ← lift (given claims.client_id token_invalid)
  require (str_eq (audience_string claims.aud) cfg.mcp_server_url) token_invalid
  name ← client_name client_id
  pure (record {
    user_id = sub;
    client_id = client_id;
    client_name = name;
    scopes = fields (string_or_empty claims.scope);
    audience = audience_string claims.aud;
  })
