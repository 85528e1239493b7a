-- ===== src/OAuth/History/Rotation.antt =====
-- A refresh token is good for one exchange, and a revoked token for none
-- (core/services/oauth_server.go).
use mathlib.Core.Path.{subst}
use sercha_core.Base.{
  String, true, ◌≡◌, ◌≢◌, refl, sym, inl, inr, some, List, All, Rows-of_modify, Rows-Unit, lookup,
  lookup-Rows, ok, err, invalid_grant, invalid_client, Option-cases, arith, str_eq,
}
use sercha_core.OAuth.Domain.{TokenRequest, TokenResponse, grant_type_refresh_token, is_valid}
use sercha_core.OAuth.External.{Config, Draws}
use sercha_core.OAuth.Stores.{Db, called, get_refresh_token, rotate}
use sercha_core.OAuth.Stores.Steps.{
  after-ok, require-ok, pure-ok, get_client-ok, get_refresh_token-ok, rotate_refresh_token-ok,
}
use sercha_core.OAuth.Stores.Rows.{RowPreds, Holds}
use sercha_core.OAuth.Exchange.{
  renew, handle_refresh_token_grant, check_secret, issue, token, new_access_token, response,
}
use sercha_core.OAuth.History.{Op, exchanges, run}
use sercha_core.OAuth.History.Closure.{IsClosed}
use sercha_core.OAuth.History.Closure.Runs.{run-Holds}

-- The operation does not draw this refresh token at random.
abbrev pub NeverRenews : String → Op → Type 0
NeverRenews x (exchanges d req) = d.random ≢ some x
NeverRenews x _ = Unit

abbrev pub dead_rows : String → RowPreds
dead_rows x = record {
  on_client = λ k c. Unit;
  on_code = λ k c. Unit;
  on_access = λ k t. Unit;
  on_refresh = λ k t. k ≡ x → t.revoked ≡ true;
}

dead_rows-IsClosed : (x : String) → IsClosed (dead_rows x) (NeverRenews x)
dead_rows-IsClosed x = record {
  stable = record {
    times = λ k c t u h. tt;
    mark = λ k c h. tt;
    revoke_access_row = λ k t h. tt;
    revoke_refresh_row = λ k t h e. refl;
    rotate_row = λ k new_id t h e. refl;
  };
  client = λ d req hash fits known. tt;
  code = λ d user_id req c code fits drawn known allowed. tt;
  access_of_code = λ cfg d req c fits known same. tt;
  access_of_refresh = λ d req t fits known same. tt;
  refresh = λ d req t id fits drawn known e. absurd (fits (rw (← e) drawn));
}

-- Once the rows of a refresh token are revoked, the grant refuses it.
dead_refused :
    (cfg : Config) (d : Draws) (req : TokenRequest) (db : Db)
    → Holds (dead_rows req.refresh_token) db
    → (handle_refresh_token_grant cfg d req db).0 ≡ err invalid_grant
unfolding handle_refresh_token_grant renew get_refresh_token is_valid
dead_refused cfg d req db h = elim (Option-cases (lookup req.refresh_token db.refresh_tokens)) [
  | inl missing ↦ ground arith
  | inr (t, found) ↦
      let dead =
        lookup-Rows (dead_rows req.refresh_token).on_refresh req.refresh_token db.refresh_tokens
          h.refresh found refl in
      ground arith
]

-- A grant that returns has rotated its refresh token.
rotated_dead :
    (cfg : Config) (d : Draws) (req : TokenRequest) (db db' : Db) (resp : TokenResponse)
    → handle_refresh_token_grant cfg d req db ≡ (ok resp, db')
    → Holds (dead_rows req.refresh_token) db'
unfolding handle_refresh_token_grant renew
rotated_dead cfg d req db db' resp h =
    let x = req.refresh_token in
    let (old, found, h₁) = get_refresh_token-ok x invalid_grant db _ h in
    let (valid, h₂) = require-ok (is_valid old d.checked_at) invalid_grant (called db) _ h₁ in
    let (same, h₃) =
      require-ok (str_eq old.client_id req.client_id) invalid_client (called db) _ h₂ in
    let (client, known, h₄) = get_client-ok req.client_id invalid_client (called db) _ h₃ in
    let (_, db₁, _, h₅) =
      after-ok (check_secret cfg.crypto client req.client_secret (called (called db))) _ h₄ in
    let t = new_access_token d req.client_id old.user_id old.scopes old.audience in
    let (issued, db₂, _, h₆) = after-ok (issue cfg d t db₁) _ h₅ in
    let h₇ = rotate_refresh_token-ok x (issued.1).id db₂ _ h₆ in
    let end = (pure-ok (response issued.0 issued.1) _ h₇).1 in
    subst (Holds (dead_rows x)) end (record {
      clients = Rows-Unit db₂.clients;
      codes = Rows-Unit db₂.codes;
      access = Rows-Unit db₂.access_tokens;
      refresh =
          Rows-of_modify (dead_rows x).on_refresh x (rotate (issued.1).id) db₂.refresh_tokens
            (λ v e. refl) (λ j v ne e. absurd (ne e));
    })

pub token-refresh_grant :
    (cfg : Config) (d : Draws) (req : TokenRequest)
    → req.grant_type ≡ grant_type_refresh_token
    → token cfg d req ≡ handle_refresh_token_grant cfg d req
unfolding token
token-refresh_grant cfg d req h = rw h

-- A refresh token that was exchanged is refused ever after, whatever the request and the state of
-- the database, as long as no exchange in between draws that very token at random.
pub refresh_single_use :
    (cfg : Config) (d d' : Draws) (req req' : TokenRequest) (db : Db) (ops : List Op)
    {resp : TokenResponse}
    → All (NeverRenews req.refresh_token) ops
    → req.grant_type ≡ grant_type_refresh_token
    → (token cfg d req db).0 ≡ ok resp
    → req'.grant_type ≡ grant_type_refresh_token
    → req'.refresh_token ≡ req.refresh_token
    → (token cfg d' req' (run cfg ops (token cfg d req db).1)).0 ≡ err invalid_grant
refresh_single_use cfg d d' req req' db ops {resp} later gt done gt' same =
    let x = req.refresh_token in
    let first = token-refresh_grant cfg d req gt in
    let db₁ = (handle_refresh_token_grant cfg d req db).1 in
    let dead = rotated_dead cfg d req db db₁ resp (λ i. ((rw first at done) i, db₁)) in
    rw (token-refresh_grant cfg d' req' gt', first)
      (dead_refused cfg d' req' (run cfg ops db₁) (
        subst (λ (y : String). Holds (dead_rows y) (run cfg ops db₁)) (sym same)
          (run-Holds (dead_rows x) (NeverRenews x) cfg (dead_rows-IsClosed x) ops db₁ later dead)))
