-- ===== src/OAuth/Authorization/Checks.antt =====
-- When Authorize hands out a code (core/services/oauth_server.go), and what it writes.
use sercha_core.Base.{
  suc, String, true, ◌≡◌, ◌≢◌, sym, ap, ◌∙◌, internal, invalid_scope, str_eq, not, invalid_client,
  invalid_redirect_uri, unsupported_grant_type, unsupported_response_type, invalid_code_challenge,
  none, some, List, [], ◌∷◌, lookup, contains, Within, Error, ok, err, arith, eq_iff,
}
use mathlib.Core.Path.{subst}
use sercha_core.OAuth.Domain.{
  OAuthClient, AuthorizationCode, AuthorizeRequest, validate_scopes, has_scope, has_redirect_uri,
  has_grant_type, grant_type_authorization_code,
}
use sercha_core.OAuth.External.{Draws}
use sercha_core.OAuth.Stores.{Db, Prog, called, after}
use sercha_core.OAuth.Stores.{get_client, save_code}
use sercha_core.OAuth.Stores.Keeps.{
  Gives, Keeps, SameTables, keeps_rules, IsAtomic, IsAtomic-bind, IsAtomic-last,
}
use sercha_core.OAuth.Stores.Steps.{
  after-ok, require-end, require-ok, given-ok, pure-ok, get_client-ok, save_code-ok,
}
use sercha_core.OAuth.Registration.{is_empty}
use sercha_core.OAuth.Authorization.{authorize, check_client, requested_scopes, new_code}

-- No scope is invalid exactly when each is one of the client's.
validate_scopes-Within :
    (c : OAuthClient) (requested : List String)
    → is_empty (validate_scopes c requested) ≡ true
    → Within requested c.scopes
unfolding validate_scopes has_scope
validate_scopes-Within c [] h = tt
validate_scopes-Within c (s ∷ requested) h =
    (ground arith, validate_scopes-Within c requested (ground arith))

-- What Authorize requires of the client that the request names.
pub record IsAllowed (req : AuthorizeRequest) (c : OAuthClient) : Type 0 where
  pub active : c.active ≡ true
  pub redirect_registered : contains c.redirect_uris req.redirect_uri ≡ true
  pub grant_registered : contains c.grant_types grant_type_authorization_code ≡ true
  pub scopes_allowed : Within (requested_scopes c req) c.scopes

check_client_passed :
    (c : OAuthClient) (req : AuthorizeRequest) (db db' : Db) (u : Unit {0})
    → check_client c req db ≡ (ok u, db')
    → IsAllowed req c × (db ≡ db')
unfolding check_client has_redirect_uri has_grant_type
check_client_passed c req db db' u h =
    let (active, h₁) = require-ok c.active invalid_client db _ h in
    let (redirect, h₂) =
      require-ok (contains c.redirect_uris req.redirect_uri) invalid_redirect_uri db _ h₁ in
    let (grant, h₃) =
      require-ok (contains c.grant_types grant_type_authorization_code) unsupported_grant_type db _
        h₂ in
    let scopes = requested_scopes c req in
    let (valid, same) = require-end (is_empty (validate_scopes c scopes)) invalid_scope db h₃ in
    (
      record {
        active = active;
        redirect_registered = redirect;
        grant_registered = grant;
        scopes_allowed = validate_scopes-Within c scopes valid;
      },
      same,
    )

check_client-IsAllowed :
    {B : Type 0} {b : B} {db' : Db} (c : OAuthClient) (req : AuthorizeRequest) (db : Db)
    (f : Unit {0} → Prog B)
    → after (check_client c req db) f ≡ (ok b, db')
    → IsAllowed req c × (f tt db ≡ (ok b, db'))
check_client-IsAllowed {b} {db'} c req db f h =
    let (_, db₁, checked, rest) = after-ok (check_client c req db) f h in
    let (allowed, same) = check_client_passed c req db db₁ tt checked in
    (allowed, subst (λ (s : Db). f tt s ≡ (ok b, db')) (sym same) rest)

-- What a successful run of Authorize has checked and written.
pub record Authorized (d : Draws) (user_id : String) (req : AuthorizeRequest) (code : String)
    (db db' : Db) : Type 0 where
  pub client : OAuthClient
  pub code_flow : req.response_type ≡ "code"
  pub pkce_method : req.code_challenge_method ≡ "S256"
  pub pkce_challenge : req.code_challenge ≢ ""
  pub known : lookup req.client_id db.clients ≡ some client
  pub allowed : IsAllowed req client
  pub drawn : d.random ≡ some code
  pub fresh : lookup code db.codes ≡ none
  pub written : db' ≡ record db {
    codes = (code, new_code d code user_id req (requested_scopes client req)) ∷ db.codes;
    calls = suc (suc db.calls);
  }

-- If Authorize returns a code, then the request asked for a code with an S256 challenge; the client
-- was known, active, registered for the redirect URI and for the grant, and each scope asked for is
-- one of the client's; the code is the random string that was drawn and was not taken; and all that
-- changed is that its row was added, by two calls of the database.
pub authorize-Authorized :
    (d : Draws) (user_id : String) (req : AuthorizeRequest) (db db' : Db) (code : String)
    → authorize d user_id req db ≡ (ok code, db')
    → Authorized d user_id req code db db'
unfolding authorize new_code
authorize-Authorized d user_id req db db' code h =
    let (flow, h₁) =
      require-ok (str_eq req.response_type "code") unsupported_response_type db _ h in
    let (method, h₂) =
      require-ok (str_eq req.code_challenge_method "S256") invalid_code_challenge db _ h₁ in
    let (challenge, h₃) =
      require-ok (not (str_eq req.code_challenge "")) invalid_code_challenge db _ h₂ in
    let (c, known, h₄) = get_client-ok req.client_id invalid_client db _ h₃ in
    let (allowed, h₅) = check_client-IsAllowed c req (called db) _ h₄ in
    let (drawn, random, h₆) = given-ok d.random internal (called db) _ h₅ in
    let (fresh, h₇) =
      save_code-ok (new_code d drawn user_id req (requested_scopes c req)) (called db) _ h₆ in
    let (same, end) = pure-ok drawn _ h₇ in
    record {
      client = c;
      code_flow = (eq_iff _ _).0 flow;
      pkce_method = (eq_iff _ _).0 method;
      pkce_challenge = ground (arith, eq_iff req.code_challenge "");
      known = known;
      allowed = allowed;
      drawn = ground arith;
      fresh = subst (λ (z : String). lookup z db.codes ≡ none) same fresh;
      written =
          sym end
          ∙ ap
              (λ (z : String). record db {
                codes = (z, new_code d z user_id req (requested_scopes c req)) ∷ db.codes;
                calls = suc (suc db.calls);
              })
              same;
    }

get_client-SameTables : (db₀ : Db) (id : String) → Keeps (SameTables db₀) (get_client id)
unfolding get_client
get_client-SameTables db₀ id = record { at = λ db h. ground arith }

save_code-IsAtomic : (c : AuthorizationCode) → IsAtomic (save_code c)
unfolding save_code
save_code-IsAtomic c = record { at = λ db e db' q. ground arith }

pub check_client-Keeps :
    {P : Db → Type 0} (c : OAuthClient) (req : AuthorizeRequest) → Keeps P (check_client c req)
unfolding check_client
check_client-Keeps c req = search keeps_rules

ruleset atomic_rules = (
  keeps_rules, IsAtomic-bind, IsAtomic-last, get_client-SameTables, check_client-Keeps,
  save_code-IsAtomic,
)

authorize-IsAtomic :
    (d : Draws) (user_id : String) (req : AuthorizeRequest) → IsAtomic (authorize d user_id req)
unfolding authorize
authorize-IsAtomic d user_id req = search atomic_rules depth 20

-- If Authorize returns an error, then it has changed no table.
pub authorize-SameTables :
    (d : Draws) (user_id : String) (req : AuthorizeRequest) (db db' : Db) (e : Error)
    → authorize d user_id req db ≡ (err e, db')
    → SameTables db db'
authorize-SameTables d user_id req db db' e h = (authorize-IsAtomic d user_id req).at db e db' h

-- After the checks of the client the run may rely on what they say.
pub check_client-Gives :
    {P : Db → Type 0} (c : OAuthClient) (req : AuthorizeRequest)
    → Gives P (check_client c req) (λ _. IsAllowed req c)
check_client-Gives c req = record { at = λ db h u db' q. (check_client_passed c req db db' u q).0 }
