-- ===== src/OAuth/History/KnownScopes.antt =====
-- RegisterClient admits known scopes only, and every later grant narrows them
-- (core/services/oauth_server.go).
use sercha_core.Base.{String, true, ◌≡◌, List, [], ◌∷◌, All, Within, Within-trans, arith}
use sercha_core.OAuth.Domain.{default_mcp_scopes}
use sercha_core.OAuth.External.{Config}
use sercha_core.OAuth.Stores.{Db}
use sercha_core.OAuth.Stores.Rows.{RowPreds, Holds}
use sercha_core.OAuth.Registration.{all_known, new_client}
use sercha_core.OAuth.Authorization.{new_code}
use sercha_core.OAuth.Exchange.{new_access_token, new_refresh_token}
use sercha_core.OAuth.History.{Op, run}
use sercha_core.OAuth.History.Closure.{IsClosed}
use sercha_core.OAuth.History.Closure.Runs.{run-Holds}

abbrev pub Known : List String → Type 0
Known scopes = Within scopes default_mcp_scopes

all_known-Within : (scopes : List String) → all_known scopes ≡ true → Known scopes
unfolding all_known
all_known-Within [] h = tt
all_known-Within (s ∷ scopes) h = (ground arith, all_known-Within scopes (ground arith))

abbrev pub known_rows : RowPreds
known_rows = record {
  on_client = λ k c. Known c.scopes;
  on_code = λ k c. Known c.scopes;
  on_access = λ k t. Known t.scopes;
  on_refresh = λ k t. Known t.scopes;
}

known_rows-IsClosed : IsClosed known_rows (λ op. Unit)
unfolding new_client new_code new_access_token new_refresh_token
known_rows-IsClosed = record {
  stable = record {
    times = λ k c t u h. h;
    mark = λ k c h. h;
    revoke_access_row = λ k t h. h;
    revoke_refresh_row = λ k t h. h;
    rotate_row = λ k new_id t h. h;
  };
  client = λ d req hash fits known. all_known-Within _ known;
  code = λ d user_id req c code fits drawn known allowed.
      Within-trans _ c.scopes _ allowed.scopes_allowed known;
  access_of_code = λ cfg d req c fits known same. known;
  access_of_refresh = λ d req t fits known same. known;
  refresh = λ d req t id fits drawn known. known;
}

All-Unit : (ops : List Op) → All (λ op. Unit {0}) ops
All-Unit [] = tt
All-Unit (op ∷ ops) = (tt, All-Unit ops)

-- Whatever the operations and the failures of the database, from a state whose clients, codes and
-- tokens have known MCP scopes only: every client, code, access token and refresh token still has.
pub run-known_rows :
    (cfg : Config) (ops : List Op) (db : Db)
    → Holds known_rows db
    → Holds known_rows (run cfg ops db)
run-known_rows cfg ops db h =
    run-Holds known_rows (λ op. Unit) cfg known_rows-IsClosed ops db (All-Unit ops) h
