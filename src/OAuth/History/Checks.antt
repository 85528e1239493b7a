-- ===== src/OAuth/History/Checks.antt =====
-- What the checks of core/services/oauth_server.go say when they pass, and that they write nothing.
use sercha_core.Base.{
  ℕ, String, true, ◌≡◌, not, invalid_input, invalid_scope, expired_code, invalid_client, ok, str_eq,
  eq_iff,
}
use sercha_core.OAuth.Domain.{
  OAuthClient, AuthorizationCode, ClientRegistrationRequest, TokenRequest, is_expired,
  default_mcp_scopes,
}
use sercha_core.OAuth.External.{Crypto}
use sercha_core.OAuth.Stores.{Db}
use sercha_core.OAuth.Stores.Steps.{require-ok}
use sercha_core.OAuth.Stores.Keeps.{Keeps, keeps_rules}
use sercha_core.OAuth.Registration.{is_empty, default_list, all_known, check_registration}
use sercha_core.OAuth.Exchange.{check_code, check_secret}

pub check_registration-knows :
    (req : ClientRegistrationRequest) (db db' : Db) (u : Unit {0})
    → check_registration req db ≡ (ok u, db')
    → all_known (default_list default_mcp_scopes req.scopes) ≡ true
unfolding check_registration
check_registration-knows req db db' u h =
    let (_, h₁) = require-ok (not (str_eq req.name "")) invalid_input db _ h in
    let (_, h₂) = require-ok (not (is_empty req.redirect_uris)) invalid_input db _ h₁ in
    (require-ok (all_known (default_list default_mcp_scopes req.scopes)) invalid_scope db _ h₂).0

pub check_code-matches :
    (crypto : Crypto) (now : ℕ) (c : AuthorizationCode) (req : TokenRequest) (db db' : Db)
    (u : Unit {0})
    → check_code crypto now c req db ≡ (ok u, db')
    → c.client_id ≡ req.client_id
unfolding check_code
check_code-matches crypto now c req db db' u h =
    let (_, h₁) = require-ok (not (is_expired c.expires_at now)) expired_code db _ h in
    (eq_iff _ _).0 (require-ok (str_eq c.client_id req.client_id) invalid_client db _ h₁).0

module _ {P : Db → Type 0} where
  pub check_registration-Keeps :
      (req : ClientRegistrationRequest) → Keeps P (check_registration req)
  unfolding check_registration
  check_registration-Keeps req = search keeps_rules depth 8

  pub check_code-Keeps :
      (crypto : Crypto) (now : ℕ) (c : AuthorizationCode) (req : TokenRequest)
      → Keeps P (check_code crypto now c req)
  unfolding check_code
  check_code-Keeps crypto now c req = search keeps_rules depth 8

  pub check_secret-Keeps :
      (crypto : Crypto) (c : OAuthClient) (secret : String) → Keeps P (check_secret crypto c secret)
  unfolding check_secret
  check_secret-Keeps crypto c secret = search keeps_rules depth 8
