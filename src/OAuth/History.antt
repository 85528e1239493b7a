-- ===== src/OAuth/History.antt =====
-- Histories of the authorization server: the operations of core/services/oauth_server.go and the
-- upkeep of adapters/driven/postgres/oauth_server.go, in any order and with any outcome.
mod Checks
pub mod Closure
pub mod KnownScopes
pub mod Consent
pub mod SingleUse
pub mod Rotation
pub mod Revocation
use sercha_core.Base.{ℕ, String, List, [], ◌∷◌}
use sercha_core.OAuth.Domain.{ClientRegistrationRequest, AuthorizeRequest, TokenRequest}
use sercha_core.OAuth.External.{Config, Draws}
use sercha_core.OAuth.Stores.{
  Db, delete_client, revoke_all_for_client, cleanup_codes, cleanup_tokens,
}
use sercha_core.OAuth.Registration.{register_client}
use sercha_core.OAuth.Authorization.{authorize}
use sercha_core.OAuth.Exchange.{token}
use sercha_core.OAuth.Validation.{revoke, validate_access_token}

pub data Op : Type 0 where
  registers : Draws → ClientRegistrationRequest → Op
  authorizes : Draws → String → AuthorizeRequest → Op
  exchanges : Draws → TokenRequest → Op
  revokes : ℕ → String → Op
  validates : ℕ → ℕ → String → Op
  deletes_client : String → Op
  revokes_all : String → Op
  cleans_codes : ℕ → Op
  cleans_tokens : ℕ → Op

-- The state after an operation, whatever it returned.
unfoldable pub step : Config → Op → Db → Db
step cfg (registers d req) db = (register_client cfg d req db).1
step cfg (authorizes d user_id req) db = (authorize d user_id req db).1
step cfg (exchanges d req) db = (token cfg d req db).1
step cfg (revokes now text) db = (revoke cfg now text db).1
step cfg (validates parsed_at now text) db = (validate_access_token cfg parsed_at now text db).1
step cfg (deletes_client id) db = (delete_client id db).1
step cfg (revokes_all id) db = (revoke_all_for_client id db).1
step cfg (cleans_codes now) db = (cleanup_codes now db).1
step cfg (cleans_tokens now) db = (cleanup_tokens now db).1

unfoldable pub run : Config → List Op → Db → Db
run cfg [] db = db
run cfg (op ∷ ops) db = run cfg ops (step cfg op db)
