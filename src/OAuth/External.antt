-- ===== src/OAuth/External.antt =====
-- What core/services/oauth_server.go takes from elsewhere: bcrypt, SHA-256 with base64url, signed
-- JSON web tokens (golang-jwt), and the clock readings and random strings that one call draws.
use sercha_core.Base.{ℕ, String, Bool, Option, List}

-- The "aud" claim as it is parsed: absent, a string, or a list whose items may be no strings.
pub data Audience : Type 0 where
  missing : Audience
  one : String → Audience
  many : List (Option String) → Audience

-- jwt.MapClaims; a claim is `none` where it is absent or no string.
pub record Claims : Type 0 where
  pub jti : Option String
  pub sub : Option String
  pub client_id : Option String
  pub scope : Option String
  pub aud : Audience
  pub iat : ℕ
  pub exp : ℕ

pub record Crypto : Type 0 where
  pub hash_password : String → Option String
  pub check_password : String → String → Bool
  -- base64url of the SHA-256 hash
  pub s256 : String → String
  -- HS256 with the configured secret
  pub sign : Claims → Option String
  -- jwt.Parse at a time, with the method and the secret checked
  pub parse : ℕ → String → Option Claims

pub record Config : Type 0 where
  pub crypto : Crypto
  pub mcp_server_url : String

-- The readings and draws of one call, in the order in which the code makes them. A random string
-- is `none` where the random source fails.
pub record Draws : Type 0 where
  pub checked_at : ℕ
  pub uuid : String
  pub issued_at : ℕ
  pub saved_at : ℕ
  pub signed_at : ℕ
  pub access_created_at : ℕ
  pub random : Option String
  pub renewed_at : ℕ
  pub refresh_created_at : ℕ
