-- ===== src/OAuth/History/Closure/Runs.antt =====
-- A closed invariant of rows holds throughout every history of the authorization server
-- (core/services/oauth_server.go).
use sercha_core.Base.{ℕ, String, Option, none, some, List, [], ◌∷◌, All, Result, ok, err}
use sercha_core.OAuth.Domain.{OAuthClient}
use sercha_core.OAuth.External.{Claims, Config}
use sercha_core.OAuth.Stores.{Db, Prog, get_client, revoke_access_token, revoke_refresh_token}
use sercha_core.OAuth.Stores.Keeps.{Keeps, keeps_rules, Keeps-pure}
use sercha_core.OAuth.Stores.Rows.Codes
use sercha_core.OAuth.Stores.Rows.Tokens
use sercha_core.OAuth.Stores.Rows.{RowPreds, Holds}
use sercha_core.OAuth.Validation.{
  revoke, revoke_parsed, revoke_jti, ignoring, client_name, name_or_empty, validate_access_token,
}
use sercha_core.OAuth.History.{
  Op, registers, authorizes, exchanges, revokes, validates, deletes_client, revokes_all,
  cleans_codes, cleans_tokens, step, run,
}
use sercha_core.OAuth.History.Closure.{IsClosed}
use sercha_core.OAuth.History.Closure.Grants.{register_client-Holds, authorize-Holds, token-Holds}

module _ (p : RowPreds) (Fits : Op → Type 0) (cfg : Config) (k : IsClosed p Fits) where
  ignoring-Holds : {A : Type 0} (m : Prog A) → Keeps (Holds p) m → Keeps (Holds p) (ignoring m)
  ignoring-Holds m keeps = record { at = keeps.at }

  revoke_parsed-Holds : (text : String) (o : Option Claims) → Keeps (Holds p) (revoke_parsed text o)
  unfolding revoke_parsed
  revoke_parsed-Holds text none =
      ignoring-Holds (revoke_refresh_token text) (Tokens.revoke_refresh_token-Holds p k.stable text)
  revoke_parsed-Holds text (some claims) = revoke_jti-Holds claims.jti
    where
      revoke_jti-Holds : (o : Option String) → Keeps (Holds p) (revoke_jti o)
      revoke_jti-Holds none = Keeps-pure tt
      revoke_jti-Holds (some jti) =
          ignoring-Holds (revoke_access_token jti) (Tokens.revoke_access_token-Holds p k.stable jti)

  client_name-Holds : (id : String) → Keeps (Holds p) (client_name id)
  client_name-Holds id = record {
    at = λ db h. named (get_client id db) ((Codes.get_client-Holds p k.stable id).at db h);
  }
    where
      named : (r : Result OAuthClient × Db) → Holds p r.1 → Holds p (name_or_empty r).1
      named (ok c, db) h = h
      named (err e, db) h = h

  validate-Holds :
      (parsed_at now : ℕ) (text : String)
      → Keeps (Holds p) (validate_access_token cfg parsed_at now text)
  unfolding validate_access_token
  validate-Holds parsed_at now text =
      search (keeps_rules, Tokens.get_access_token-Holds p k.stable, client_name-Holds) depth 20

  step-Holds : (op : Op) (db : Db) → Fits op → Holds p db → Holds p (step cfg op db)
  unfolding step revoke
  step-Holds (registers d req) db fits h = (register_client-Holds p Fits cfg k d req fits).at db h
  step-Holds (authorizes d user_id req) db fits h =
      (authorize-Holds p Fits cfg k d user_id req fits).at db h
  step-Holds (exchanges d req) db fits h = (token-Holds p Fits cfg k d req fits).at db h
  step-Holds (revokes now text) db fits h =
      (revoke_parsed-Holds text (cfg.crypto.parse now text)).at db h
  step-Holds (validates parsed_at now text) db fits h = (validate-Holds parsed_at now text).at db h
  step-Holds (deletes_client id) db fits h = (Codes.delete_client-Holds p k.stable id).at db h
  step-Holds (revokes_all id) db fits h = (Tokens.revoke_all_for_client-Holds p k.stable id).at db h
  step-Holds (cleans_codes now) db fits h = (Codes.cleanup_codes-Holds p k.stable now).at db h
  step-Holds (cleans_tokens now) db fits h = (Tokens.cleanup_tokens-Holds p k.stable now).at db h

  pub run-Holds : (ops : List Op) (db : Db) → All Fits ops → Holds p db → Holds p (run cfg ops db)
  unfolding run
  run-Holds [] db fits h = h
  run-Holds (op ∷ ops) db fits h = run-Holds ops (step cfg op db) fits.1 (step-Holds op db fits.0 h)
