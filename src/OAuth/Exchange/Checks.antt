-- ===== src/OAuth/Exchange/Checks.antt =====
-- When the authorization_code grant hands out tokens (core/services/oauth_server.go), and which.
use mathlib.Core.Path.{subst}
use sercha_core.Base.{
  ℕ, String, true, false, not, ◌≡◌, ◌≢◌, ◌⊎◌, sym, ap, ◌∙◌, inl, inr, none, some, ◌∷◌, ◌≤◌, lookup,
  modify, ok, internal, invalid_grant, invalid_client, expired_code, invalid_redirect_uri,
  invalid_code_challenge, Bool-cases, arith, eq_iff, str_eq,
}
use sercha_core.OAuth.Domain.{
  OAuthClient, AuthorizationCode, OAuthAccessToken, OAuthRefreshToken, TokenRequest, TokenResponse,
  is_public, is_expired,
}
use sercha_core.OAuth.External.{Config, Crypto, Draws}
use sercha_core.OAuth.Stores.{Db, called, mark_used}
use sercha_core.OAuth.Stores.Steps.{
  after-ok, require-ok, require-end, given-ok, pure-ok, get_client-ok, get_and_mark_used-ok,
  save_access_token-ok, save_refresh_token-ok,
}
use sercha_core.OAuth.Exchange.{
  validate_pkce, check_code, check_secret, claims_of, new_access_token, new_refresh_token, response,
  issue, audience_of, redeem, handle_authorization_code_grant,
}

-- The code fits the request at this time, the PKCE verifier included.
pub record Fits (crypto : Crypto) (now : ℕ) (c : AuthorizationCode) (req : TokenRequest)
    : Type 0 where
  pub live : now ≤ c.expires_at
  pub same_client : c.client_id ≡ req.client_id
  pub same_redirect : c.redirect_uri ≡ req.redirect_uri
  pub verifier_given : req.code_verifier ≢ ""
  pub pkce : crypto.s256 req.code_verifier ≡ c.code_challenge

check_code-Fits :
    (crypto : Crypto) (now : ℕ) (c : AuthorizationCode) (req : TokenRequest) (db db' : Db)
    (u : Unit {0})
    → check_code crypto now c req db ≡ (ok u, db')
    → Fits crypto now c req × (db ≡ db')
unfolding check_code validate_pkce
check_code-Fits crypto now c req db db' u h =
    let (live, h₁) = require-ok (not (is_expired c.expires_at now)) expired_code db _ h in
    let (client, h₂) = require-ok (str_eq c.client_id req.client_id) invalid_client db _ h₁ in
    let (redirect, h₃) =
      require-ok (str_eq c.redirect_uri req.redirect_uri) invalid_redirect_uri db _ h₂ in
    let (pkce, same) =
      require-end (validate_pkce crypto req.code_verifier c.code_challenge) invalid_code_challenge
        db h₃ in
    (
      record {
        live = ground arith;
        same_client = (eq_iff _ _).0 client;
        same_redirect = (eq_iff _ _).0 redirect;
        verifier_given = ground (arith, eq_iff req.code_verifier "");
        pkce = ground (arith, eq_iff (crypto.s256 req.code_verifier) c.code_challenge);
      },
      same,
    )

-- A confidential client has shown its secret.
abbrev pub Proven : Crypto → OAuthClient → String → Type 0
Proven crypto client secret =
    (is_public client ≡ true)
    ⊎ ((secret ≢ "") × (crypto.check_password client.secret_hash secret ≡ true))

check_secret-Proven :
    (crypto : Crypto) (client : OAuthClient) (secret : String) (db db' : Db) (u : Unit {0})
    → check_secret crypto client secret db ≡ (ok u, db')
    → Proven crypto client secret × (db ≡ db')
unfolding check_secret
check_secret-Proven crypto client secret db db' u h = elim (Bool-cases (is_public client)) [
  | inl public ↦ (inl public, (pure-ok tt db (rw public at h)).1)
  | inr confidential ↦
      let (given, h₁) =
        require-ok (not (str_eq secret "")) invalid_client db _ (rw confidential at h) in
      let (checked, same) =
        require-end (crypto.check_password client.secret_hash secret) invalid_client db h₁ in
      (inr (ground (arith, eq_iff secret ""), checked), same)
]

-- The two rows that an exchange adds, and the signed token for the first.
pub record Issued (cfg : Config) (d : Draws) (t : OAuthAccessToken) (db db' : Db) (jwt : String)
    (r : OAuthRefreshToken) : Type 0 where
  pub signed : cfg.crypto.sign (claims_of t d.signed_at) ≡ some jwt
  pub drawn : d.random ≡ some r.id
  pub renewal : r ≡ new_refresh_token d t r.id
  pub new_access : lookup t.id db.access_tokens ≡ none
  pub access : db'.access_tokens ≡ (t.id, t) ∷ db.access_tokens
  pub refresh : db'.refresh_tokens ≡ (r.id, r) ∷ db.refresh_tokens
  pub clients : db'.clients ≡ db.clients
  pub codes : db'.codes ≡ db.codes

issue-Issued :
    (cfg : Config) (d : Draws) (t : OAuthAccessToken) (db db' : Db) (jwt : String)
    (r : OAuthRefreshToken)
    → issue cfg d t db ≡ (ok (jwt, r), db')
    → Issued cfg d t db db' jwt r
unfolding issue new_refresh_token
issue-Issued cfg d t db db' jwt r h =
    let (text, signed, h₁) = given-ok (cfg.crypto.sign (claims_of t d.signed_at)) internal db _ h in
    let (fresh, h₂) = save_access_token-ok t db _ h₁ in
    let db₁ : Db = record (called db) { access_tokens = (t.id, t) ∷ db.access_tokens } in
    let (id, drawn, h₃) = given-ok d.random internal db₁ _ h₂ in
    let (_, h₄) = save_refresh_token-ok (new_refresh_token d t id) db₁ _ h₃ in
    let (same, end) = pure-ok (text, new_refresh_token d t id) _ h₄ in
    let same_text = ap (λ (p : String × OAuthRefreshToken). p.0) same in
    let same_row = ap (λ (p : String × OAuthRefreshToken). p.1) same in
    record {
      signed = signed ∙ ap some same_text;
      drawn = drawn ∙ ap (λ (x : OAuthRefreshToken). some x.id) same_row;
      renewal = sym same_row ∙ ap (λ (x : OAuthRefreshToken). new_refresh_token d t x.id) same_row;
      new_access = fresh;
      access = sym (ap (λ (x : Db). x.access_tokens) end);
      refresh =
          sym (ap (λ (x : Db). x.refresh_tokens) end)
          ∙ ap (λ (x : OAuthRefreshToken). (x.id, x) ∷ db.refresh_tokens) same_row;
      clients = sym (ap (λ (x : Db). x.clients) end);
      codes = sym (ap (λ (x : Db). x.codes) end);
    }

Issued-called :
    (cfg : Config) (d : Draws) (t : OAuthAccessToken) (db db' : Db) (jwt : String)
    (r : OAuthRefreshToken)
    → Issued cfg d t (called db) db' jwt r
    → Issued cfg d t db db' jwt r
Issued-called cfg d t db db' jwt r i = record {
  signed = i.signed;
  drawn = i.drawn;
  renewal = i.renewal;
  new_access = i.new_access;
  access = i.access;
  refresh = i.refresh;
  clients = i.clients;
  codes = i.codes;
}

-- What a successful exchange of a code rests on: the code's row and the client's, and the rows that
-- are added for the token.
pub record Redeemed (cfg : Config) (d : Draws) (req : TokenRequest) (db db' : Db)
    (resp : TokenResponse) : Type 0 where
  pub row : AuthorizationCode
  pub found : lookup req.code db.codes ≡ some row
  pub unused : row.used ≡ false
  pub fits : Fits cfg.crypto d.checked_at row req
  pub client : OAuthClient
  pub known : lookup req.client_id db.clients ≡ some client
  pub proven : Proven cfg.crypto client req.client_secret
  pub renewal : OAuthRefreshToken
  pub issued :
      Issued cfg d
        (new_access_token d req.client_id row.user_id row.scopes (audience_of cfg req row))
        (record db { codes = modify req.code mark_used db.codes })
        db'
        resp.access_token
        renewal
  pub returned : resp ≡ response resp.access_token renewal

-- If the authorization_code grant returns a response, then the code that the request names was in
-- the table, not yet used and not expired, was issued for this client, this redirect URI and a
-- challenge that the request's verifier hashes to; the client was registered and, where it is
-- confidential, has shown its secret; and what changed in the tables is that the code is marked as
-- used and that two rows are added: an access token with the code's user, the code's scopes and
-- the drafted audience, whose claims are what the returned text signs, and a refresh token for it.
pub code_grant-Redeemed :
    (cfg : Config) (d : Draws) (req : TokenRequest) (db db' : Db) (resp : TokenResponse)
    → handle_authorization_code_grant cfg d req db ≡ (ok resp, db')
    → Redeemed cfg d req db db' resp
unfolding handle_authorization_code_grant redeem response audience_of
code_grant-Redeemed cfg d req db db' resp h =
    let (c, found, fresh, h₁) = get_and_mark_used-ok req.code invalid_grant db _ h in
    let db₁ : Db = record (called db) { codes = modify req.code mark_used db.codes } in
    let (u, db₂, checked, h₂) =
      after-ok (check_code cfg.crypto d.checked_at (mark_used c) req db₁) _ h₁ in
    let (fit, same₂) =
      check_code-Fits cfg.crypto d.checked_at (mark_used c) req db₁ db₂ u checked in
    let (client, known, h₃) = get_client-ok req.client_id invalid_client db₂ _ h₂ in
    let (v, db₃, secret, h₄) =
      after-ok (check_secret cfg.crypto client req.client_secret (called db₂)) _ h₃ in
    let (proven, same₃) =
      check_secret-Proven cfg.crypto client req.client_secret (called db₂) db₃ v secret in
    let t =
      new_access_token d req.client_id c.user_id c.scopes (audience_of cfg req (mark_used c)) in
    let ((jwt, r), db₄, issued, h₅) = after-ok (issue cfg d t db₃) _ h₄ in
    let (same, end) = pure-ok (response jwt r) db₄ h₅ in
    let same_start : called db₁ ≡ db₃ = ap called same₂ ∙ same₃ in
    let text = ap (λ (x : TokenResponse). x.access_token) same in
    let added =
      issue-Issued cfg d t (called db₁) db' jwt r
        (ap (issue cfg d t) same_start ∙ (issued ∙ ap (λ (x : Db). (ok (jwt, r), x)) end)) in
    record {
      row = c;
      found = found;
      unused = fresh;
      fits = record {
        live = fit.live;
        same_client = fit.same_client;
        same_redirect = fit.same_redirect;
        verifier_given = fit.verifier_given;
        pkce = fit.pkce;
      };
      client = client;
      known = ap (λ (x : Db). lookup req.client_id x.clients) same₂ ∙ known;
      proven = proven;
      renewal = r;
      issued =
          subst
            (λ (x : String).
              Issued cfg d t (record db { codes = modify req.code mark_used db.codes }) db' x r)
            text (Issued-called cfg d t _ db' jwt r (Issued-called cfg d t _ db' jwt r added));
      returned = sym same ∙ ap (λ (x : String). response x r) text;
    }
