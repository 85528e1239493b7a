-- ===== src/OAuth/History/Revocation.antt =====
-- A revoked access token is refused (Revoke and ValidateAccessToken of core/services/oauth_server.go).
use sercha_core.Base.{
  exists_in, ℕ, String, true, false, ◌≡◌, ◌≢◌, ◌⊎◌, refl, inl, inr, Rows-Unit, some, List, All,
  Rows-of_modify, lookup, lookup-Rows, Result, err, token_invalid, token_revoked, Option-cases,
  Bool-cases, arith,
}
use sercha_core.OAuth.Domain.{OAuthAccessToken}
use sercha_core.OAuth.External.{Claims, Config}
use sercha_core.OAuth.Stores.{Db, revoke_access, revoke_access_token, get_access_token}
use sercha_core.OAuth.Stores.Rows.{RowPreds, Holds}
use sercha_core.OAuth.Validation.{OAuthTokenInfo, revoke, revoke_parsed, validate_access_token}
use sercha_core.OAuth.History.{Op, exchanges, run}
use sercha_core.OAuth.History.Closure.{IsClosed}
use sercha_core.OAuth.History.Closure.Runs.{run-Holds}

-- The operation does not draw this ID for a new access token.
abbrev pub NeverNames : String → Op → Type 0
NeverNames x (exchanges d req) = d.uuid ≢ x
NeverNames x _ = Unit

abbrev revoked_rows : String → RowPreds
revoked_rows x = record {
  on_client = λ k c. Unit;
  on_code = λ k c. Unit;
  on_access = λ k t. k ≡ x → t.revoked ≡ true;
  on_refresh = λ k t. Unit;
}

revoked_rows-IsClosed : (x : String) → IsClosed (revoked_rows x) (NeverNames x)
revoked_rows-IsClosed x = record {
  stable = record {
    times = λ k c t u h. tt;
    mark = λ k c h. tt;
    revoke_access_row = λ k t h e. refl;
    revoke_refresh_row = λ k t h. tt;
    rotate_row = λ k new_id t h. tt;
  };
  client = λ d req hash fits known. tt;
  code = λ d user_id req c code fits drawn known allowed. tt;
  access_of_code = λ cfg d req c fits known same e. absurd (fits e);
  access_of_refresh = λ d req t fits known same e. absurd (fits e);
  refresh = λ d req t id fits drawn known. tt;
}

-- Revoke marks the row of the token's ID.
revoke-revoked :
    (cfg : Config) (now : ℕ) (text jti : String) (db : Db) {c : Claims} {t : OAuthAccessToken}
    → cfg.crypto.parse now text ≡ some c
    → c.jti ≡ some jti
    → lookup jti db.access_tokens ≡ some t
    → db.down db.calls ≡ false
    → Holds (revoked_rows jti) (revoke cfg now text db).1
unfolding revoke revoke_parsed revoke_access_token
revoke-revoked cfg now text jti db parsed named found up =
    let there : exists_in jti db.access_tokens ≡ true = ground arith in
    rw (parsed, named, up, there)
      (record {
        clients = Rows-Unit db.clients;
        codes = Rows-Unit db.codes;
        access =
            Rows-of_modify (revoked_rows jti).on_access jti revoke_access db.access_tokens
              (λ v e. refl) (λ j v ne e. absurd (ne e));
        refresh = Rows-Unit db.refresh_tokens;
      })

-- The result is one of the two errors for a token that is unknown or revoked.
abbrev pub IsRefused : Result OAuthTokenInfo → Type 0
IsRefused r = (r ≡ err token_invalid) ⊎ (r ≡ err token_revoked)

revoked-IsRefused :
    (cfg : Config) (parsed_at now : ℕ) (text jti : String) (db : Db) {c : Claims}
    → cfg.crypto.parse parsed_at text ≡ some c
    → c.jti ≡ some jti
    → Holds (revoked_rows jti) db
    → IsRefused (validate_access_token cfg parsed_at now text db).0
unfolding validate_access_token get_access_token
revoked-IsRefused cfg parsed_at now text jti db parsed named h =
    rw (parsed, named)
      (elim (Bool-cases (db.down db.calls)) [
        | inl down ↦ rw down (inl refl)
        | inr up ↦ elim (Option-cases (lookup jti db.access_tokens)) [
          | inl missing ↦ rw (up, missing) (inl refl)
          | inr (t, found) ↦
              let revoked =
                lookup-Rows (revoked_rows jti).on_access jti db.access_tokens h.access found refl in
              rw (up, found, revoked) (inr refl)
        ]
      ])

-- If a stored access token was revoked, through a text that parsed to its ID and while the database
-- answered, then ValidateAccessToken refuses every text that parses to that ID ever after, whatever
-- the state of the database, as long as no exchange in between draws that ID for a new token.
pub revoked_never_valid :
    (cfg : Config) (revoked_at parsed_at now : ℕ) (text text' jti : String) (db : Db)
    (ops : List Op) {c c' : Claims} {t : OAuthAccessToken}
    → cfg.crypto.parse revoked_at text ≡ some c
    → c.jti ≡ some jti
    → lookup jti db.access_tokens ≡ some t
    → db.down db.calls ≡ false
    → All (NeverNames jti) ops
    → cfg.crypto.parse parsed_at text' ≡ some c'
    → c'.jti ≡ some jti
    → IsRefused
        (validate_access_token cfg parsed_at now text'
          (run cfg ops (revoke cfg revoked_at text db).1)).0
revoked_never_valid cfg revoked_at parsed_at now text text' jti db ops parsed named found up later
      parsed' named' =
    revoked-IsRefused cfg parsed_at now text' jti (run cfg ops (revoke cfg revoked_at text db).1)
      parsed' named'
      (run-Holds (revoked_rows jti) (NeverNames jti) cfg (revoked_rows-IsClosed jti) ops
        (revoke cfg revoked_at text db).1 later
        (revoke-revoked cfg revoked_at text jti db parsed named found up))
