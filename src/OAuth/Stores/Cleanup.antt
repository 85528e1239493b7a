-- ===== src/OAuth/Stores/Cleanup.antt =====
-- Cleanup of the token store (adapters/driven/postgres/oauth_server.go) over the references of
-- migrations/0001_initial_schema.sql.
use sercha_core.Base.{
  exists_in, ℕ, Bool, true, false, not, ◌≡◌, ◌≤◌, ap, ◌∙◌, internal, Rows, Rows-keep, Rows-of_keep,
  keep, ok, err, arith, ltb, Result, if◌then◌else◌,
}
use mathlib.Core.Path.{subst}
use sercha_core.OAuth.Domain.{OAuthAccessToken, OAuthRefreshToken}
use sercha_core.OAuth.Stores.{
  Db, called, delete_expired_access, delete_expired_refresh, cleanup_tokens,
}
use sercha_core.OAuth.Stores.Steps.{after-ok}

-- The token tables after a clean-up at this time.
pub record Clean (now : ℕ) (db : Db) : Type 0 where
  pub access_live : Rows (λ k t. now ≤ t.expires_at) db.access_tokens
  pub refresh_live : Rows (λ k t. now ≤ t.expires_at) db.refresh_tokens
  pub access_kept :
      Rows (λ k t. exists_in t.access_token_id db.access_tokens ≡ true) db.refresh_tokens

written :
    (t : Bool) (db₁ db₂ db' : Db) (u : Unit {0})
    → ◌≡◌ {A = Result (Unit {0}) × Db} (if t then (err internal, db₁) else (ok tt, db₂)) (ok u, db')
    → db₂ ≡ db'
written true db₁ db₂ db' u h = absurd (ground arith)
written false db₁ db₂ db' u h = ap (λ (r : Result (Unit {0}) × Db). r.1) h

-- If the clean-up of the tokens returns no error, then every access token and every refresh token
-- that is left has not expired, and every refresh token that is left names an access token that is
-- left: with an access token that has expired go its refresh tokens, those that have not expired
-- included.
pub cleanup_tokens-Clean :
    (now : ℕ) (db db' : Db) (u : Unit {0}) → cleanup_tokens now db ≡ (ok u, db') → Clean now db'
unfolding cleanup_tokens delete_expired_access delete_expired_refresh
cleanup_tokens-Clean now db db' u h =
    let kept = keep (λ (t : OAuthAccessToken). not (ltb t.expires_at now)) db.access_tokens in
    let renewals =
      keep (λ (t : OAuthRefreshToken). exists_in t.access_token_id kept) db.refresh_tokens in
    let first : Db = record (called db) { access_tokens = kept; refresh_tokens = renewals } in
    let second : Db = record (called first) {
      refresh_tokens = keep (λ (t : OAuthRefreshToken). not (ltb t.expires_at now)) renewals;
    } in
    let (v, db₁, h₁, h₂) =
      after-ok (delete_expired_access now db) (λ _. delete_expired_refresh now) h in
    let same₁ = written (db.down db.calls) (called db) first db₁ v h₁ in
    let h₃ = ap (delete_expired_refresh now) same₁ ∙ h₂ in
    let same₂ = written (first.down first.calls) (called first) second db' u h₃ in
    subst (Clean now) same₂ (record {
      access_live =
          Rows-of_keep (λ k t. now ≤ t.expires_at) _ db.access_tokens (λ k t e. ground arith);
      refresh_live = Rows-of_keep (λ k t. now ≤ t.expires_at) _ renewals (λ k t e. ground arith);
      access_kept =
          Rows-keep (λ k t. exists_in t.access_token_id kept ≡ true) _ renewals
            (Rows-of_keep (λ k t. exists_in t.access_token_id kept ≡ true) _ db.refresh_tokens
              (λ k t e. e));
    })
