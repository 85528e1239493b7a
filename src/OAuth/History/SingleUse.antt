-- ===== src/OAuth/History/SingleUse.antt =====
-- An authorization code is good for one exchange (core/services/oauth_server.go and GetAndMarkUsed
-- of adapters/driven/postgres/oauth_server.go).
use mathlib.Core.Path.{subst}
use sercha_core.Base.{
  String, true, ◌≡◌, ◌≢◌, refl, sym, Rows-Unit, inl, inr, some, List, All, Rows-of_modify, lookup,
  lookup-Rows, modify, Result, ok, err, invalid_grant, Option-cases, arith,
}
use sercha_core.OAuth.Domain.{TokenRequest, TokenResponse, grant_type_authorization_code}
use sercha_core.OAuth.External.{Config, Draws}
use sercha_core.OAuth.Stores.{Db, called, get_and_mark_used, mark_used}
use sercha_core.OAuth.Stores.Steps.{get_and_mark_used-ok}
use sercha_core.OAuth.Stores.Rows.{RowPreds, Holds}
use sercha_core.OAuth.Exchange.{handle_authorization_code_grant, redeem, token}
use sercha_core.OAuth.History.{Op, authorizes, run}
use sercha_core.OAuth.History.Closure.{IsClosed}
use sercha_core.OAuth.History.Closure.Grants.{redeem-Holds}
use sercha_core.OAuth.History.Closure.Runs.{run-Holds}

-- The operation does not draw this code at random.
abbrev pub NeverIssues : String → Op → Type 0
NeverIssues x (authorizes d user req) = d.random ≢ some x
NeverIssues x _ = Unit

abbrev pub spent_rows : String → RowPreds
spent_rows x = record {
  on_client = λ k c. Unit;
  on_code = λ k c. k ≡ x → c.used ≡ true;
  on_access = λ k t. Unit;
  on_refresh = λ k t. Unit;
}

spent_rows-IsClosed : (x : String) → IsClosed (spent_rows x) (NeverIssues x)
spent_rows-IsClosed x = record {
  stable = record {
    times = λ k c t u h. tt;
    mark = λ k c h e. refl;
    revoke_access_row = λ k t h. tt;
    revoke_refresh_row = λ k t h. tt;
    rotate_row = λ k new_id t h. tt;
  };
  client = λ d req hash fits known. tt;
  code = λ d user_id req c code fits drawn known allowed e. absurd (fits (rw (← e) drawn));
  access_of_code = λ cfg d req c fits known same. tt;
  access_of_refresh = λ d req t fits known same. tt;
  refresh = λ d req t id fits drawn known. tt;
}

-- Once a code's rows are marked, the grant refuses it.
spent_refused :
    (cfg : Config) (d : Draws) (req : TokenRequest) (db : Db)
    → Holds (spent_rows req.code) db
    → (handle_authorization_code_grant cfg d req db).0 ≡ err invalid_grant
unfolding handle_authorization_code_grant get_and_mark_used
spent_refused cfg d req db h = elim (Option-cases (lookup req.code db.codes)) [
  | inl missing ↦ ground arith
  | inr (c, found) ↦
      let used = lookup-Rows (spent_rows req.code).on_code req.code db.codes h.codes found refl in
      ground arith
]

-- A grant that returns has marked its code.
redeemed_spent :
    (cfg : Config) (d : Draws) (req : TokenRequest) (db db' : Db) (resp : TokenResponse)
    → handle_authorization_code_grant cfg d req db ≡ (ok resp, db')
    → Holds (spent_rows req.code) db'
unfolding handle_authorization_code_grant
redeemed_spent cfg d req db db' resp h =
    let x = req.code in
    let (c, found, fresh, rest) = get_and_mark_used-ok x invalid_grant db (redeem cfg d req) h in
    let db₁ : Db = record (called db) { codes = modify x mark_used db.codes } in
    let start : Holds (spent_rows x) db₁ = record {
      clients = Rows-Unit db.clients;
      codes =
          Rows-of_modify (spent_rows x).on_code x mark_used db.codes (λ v e. refl)
            (λ j v ne e. absurd (ne e));
      access = Rows-Unit db.access_tokens;
      refresh = Rows-Unit db.refresh_tokens;
    } in
    subst (λ (r : Result TokenResponse × Db). Holds (spent_rows x) r.1) rest
      ((redeem-Holds (spent_rows x) (NeverIssues x) cfg (spent_rows-IsClosed x) d req (mark_used c)
          tt (λ e. refl)).at
        db₁ start)

pub token-code_grant :
    (cfg : Config) (d : Draws) (req : TokenRequest)
    → req.grant_type ≡ grant_type_authorization_code
    → token cfg d req ≡ handle_authorization_code_grant cfg d req
unfolding token
token-code_grant cfg d req h = rw h

-- A code that was exchanged for tokens is refused ever after, whatever the request and the state
-- of the database, as long as no Authorize call in between draws that very code at random.
pub code_single_use :
    (cfg : Config) (d d' : Draws) (req req' : TokenRequest) (db : Db) (ops : List Op)
    {resp : TokenResponse}
    → All (NeverIssues req.code) ops
    → req.grant_type ≡ grant_type_authorization_code
    → (token cfg d req db).0 ≡ ok resp
    → req'.grant_type ≡ grant_type_authorization_code
    → req'.code ≡ req.code
    → (token cfg d' req' (run cfg ops (token cfg d req db).1)).0 ≡ err invalid_grant
code_single_use cfg d d' req req' db ops {resp} later gt done gt' same =
    let first = token-code_grant cfg d req gt in
    let db₁ = (handle_authorization_code_grant cfg d req db).1 in
    let spent = redeemed_spent cfg d req db db₁ resp (λ i. ((rw first at done) i, db₁)) in
    rw (token-code_grant cfg d' req' gt', first)
      (spent_refused cfg d' req' (run cfg ops db₁) (
        subst (λ (x : String). Holds (spent_rows x) (run cfg ops db₁)) (sym same)
          (run-Holds (spent_rows req.code) (NeverIssues req.code) cfg (spent_rows-IsClosed req.code)
            ops db₁ later spent)))
