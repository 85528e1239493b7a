-- ===== src/OAuth/Tests.antt =====
-- One run of the authorization server, from the registration of a client to the revocation of its
-- token, at which the theorems about core/services/oauth_server.go apply.
use sercha_core.Base.{
  ◌≢◌, eq_iff, String, false, ◌≡◌, refl, ap, some, [], ◌∷◌, ok, err, invalid_grant, invalid_client,
  arith, keep, str_eq, lookup, modify, remove, put, contains,
}
use sercha_core.OAuth.Domain.{
  is_valid, is_rotated, is_public, has_redirect_uri, has_grant_type, has_scope, validate_scopes,
}
use sercha_core.OAuth.Stores.{
  Db, cleanup_tokens, save_client, get_client, save_code, get_and_mark_used, save_access_token,
  save_refresh_token, get_refresh_token, rotate_refresh_token, delete_expired_access,
  delete_expired_refresh,
}
use sercha_core.OAuth.Stores.Cleanup.{Clean, cleanup_tokens-Clean}
use sercha_core.OAuth.Scopes.{fields, join, scan, is_space, parse_scopes}
use sercha_core.OAuth.Registration.{
  register_client, check_registration, client_secret, new_client, registered, all_known,
}
use sercha_core.OAuth.Authorization.{authorize, check_client, requested_scopes, new_code}
use sercha_core.OAuth.Authorization.Checks.{Authorized, authorize-Authorized, authorize-SameTables}
use sercha_core.OAuth.Stores.Keeps.{SameTables}
use sercha_core.OAuth.Exchange.{
  renew, token, handle_authorization_code_grant, handle_refresh_token_grant, redeem, check_code,
  check_secret, validate_pkce, claims_of, issue, new_access_token, new_refresh_token, response,
  audience_of,
}
use sercha_core.OAuth.Exchange.Checks.{Redeemed, code_grant-Redeemed}
use sercha_core.OAuth.External.{Config}
use sercha_core.OAuth.Validation.{revoke, validate_access_token}
use sercha_core.OAuth.Validation.Granted.{validate_access_token-claims_of}
use sercha_core.OAuth.History.{run, step}
use sercha_core.OAuth.History.SingleUse.{code_single_use}
use sercha_core.OAuth.History.Rotation.{refresh_single_use}
use sercha_core.OAuth.History.Revocation.{IsRefused, revoked_never_valid}
use sercha_core.OAuth.History.Consent.{Consented, access_token-Consented}
use sercha_core.OAuth.History.KnownScopes.{run-known_rows, known_rows}
use sercha_core.OAuth.Stores.Rows.{Holds}
use sercha_core.OAuth.Scenario.{
  toy, toy_crypto, first_client, draws, asks_code, asks_token, up, start, redeemed_ops,
  asks_unknown, later_ops, first_token, first_renewal, registered_db, authorized_db, redeemed_db,
}

-- The operations lead to the states that the tests start from.
redeemed : run toy redeemed_ops start ≡ redeemed_db
unfolding run step register_client check_registration client_secret new_client registered all_known
    save_client authorize check_client requested_scopes new_code save_code parse_scopes fields scan
    is_space validate_scopes has_scope has_redirect_uri has_grant_type token
    handle_authorization_code_grant redeem get_and_mark_used check_code check_secret validate_pkce
    claims_of issue new_access_token new_refresh_token response audience_of join get_client
    save_access_token save_refresh_token is_public lookup modify put remove contains
redeemed = refl

first_exchange :
    (token toy (draws "t1" "r1") (asks_token "authorization_code" "code1" "") authorized_db).0
    ≡ ok (record {
      access_token = "t1";
      token_type = "Bearer";
      expires_in = 900;
      refresh_token = "r1";
      scope = "mcp:search";
    })
unfolding token handle_authorization_code_grant redeem get_and_mark_used check_code check_secret
    validate_pkce claims_of issue new_access_token new_refresh_token response audience_of join
    get_client save_access_token save_refresh_token is_public lookup modify
first_exchange = refl

code_given : (authorize (draws "x" "code1") "u1" asks_code registered_db).0 ≡ ok "code1"
unfolding authorize check_client requested_scopes new_code save_code parse_scopes fields scan
    is_space validate_scopes has_scope has_redirect_uri has_grant_type get_client lookup contains
code_given = refl

code_refused :
    (authorize (draws "x" "code1") "u1" asks_unknown registered_db).0 ≡ err invalid_client
unfolding authorize get_client lookup
code_refused = refl

renewal_works :
    (token toy (draws "t2" "r2") (asks_token "refresh_token" "" "r1") redeemed_db).0
    ≡ ok (record {
      access_token = "t2";
      token_type = "Bearer";
      expires_in = 900;
      refresh_token = "r2";
      scope = "mcp:search";
    })
unfolding token handle_refresh_token_grant renew get_refresh_token is_valid is_rotated
    rotate_refresh_token check_secret claims_of issue new_access_token new_refresh_token response
    join get_client save_access_token save_refresh_token is_public lookup modify
renewal_works = refl

-- Two exchanges of one refresh token that overlap: the second reads the row before the first rotates
-- it, and both return tokens.
renewed_twice :
    (renew toy
      (draws "t3" "r3")
      (asks_token "refresh_token" "" "r1")
      first_renewal
      (token toy (draws "t2" "r2") (asks_token "refresh_token" "" "r1") redeemed_db).1).0
    ≡ ok (record {
      access_token = "t3";
      token_type = "Bearer";
      expires_in = 900;
      refresh_token = "r3";
      scope = "mcp:search";
    })
unfolding token handle_refresh_token_grant renew get_refresh_token is_valid is_rotated
    rotate_refresh_token check_secret claims_of issue new_access_token new_refresh_token response
    join get_client save_access_token save_refresh_token is_public lookup modify
renewed_twice = refl

differ : (a b : String) → str_eq a b ≡ false → a ≢ b
differ a b h e = ground (arith, eq_iff a b)

some-differ : (a b : String) → str_eq a b ≡ false → some a ≢ some b
some-differ a b h e = ground (arith, eq_iff a b)

code_single_use_example :
    (token toy (draws "t9" "r9") (asks_token "authorization_code" "code1" "") (
      run toy later_ops
        (token toy
          (draws "t1" "r1")
          (asks_token "authorization_code" "code1" "")
          authorized_db).1)).0
    ≡ err invalid_grant
code_single_use_example =
    code_single_use toy (draws "t1" "r1") (draws "t9" "r9")
      (asks_token "authorization_code" "code1" "") (asks_token "authorization_code" "code1" "")
      authorized_db later_ops ((some-differ "code2" "code1" refl), (tt, tt)) refl first_exchange
      refl refl

refresh_single_use_example :
    (token toy (draws "t9" "r9") (asks_token "refresh_token" "" "r1") (
      run toy later_ops
        (token toy (draws "t2" "r2") (asks_token "refresh_token" "" "r1") redeemed_db).1)).0
    ≡ err invalid_grant
refresh_single_use_example =
    refresh_single_use toy (draws "t2" "r2") (draws "t9" "r9") (asks_token "refresh_token" "" "r1")
      (asks_token "refresh_token" "" "r1") redeemed_db later_ops
      (tt, ((some-differ "r3" "r1" refl), tt)) refl renewal_works refl refl

revoked_never_valid_example :
    IsRefused
      (validate_access_token toy 20 21 "t1"
        (run toy later_ops (revoke toy 16 "t1" redeemed_db).1)).0
unfolding lookup
revoked_never_valid_example =
    revoked_never_valid toy 16 20 21 "t1" "t1" "t1" redeemed_db later_ops refl refl refl refl
      (tt, ((differ "t3" "t1" refl), tt)) refl refl

token_stored : lookup "t1" (run toy redeemed_ops start).access_tokens ≡ some first_token
unfolding lookup
token_stored = ap (λ (db : Db). lookup "t1" db.access_tokens) redeemed

access_token-Consented_example : Consented redeemed_ops "u1" "c1"
access_token-Consented_example = access_token-Consented toy redeemed_ops [] up "t1" token_stored

run-known_rows_example : Holds known_rows (run toy redeemed_ops start)
run-known_rows_example =
    run-known_rows toy redeemed_ops start
      (record { clients = tt; codes = tt; access = tt; refresh = tt })

authorize-Authorized_example :
    Authorized
      (draws "x" "code1")
      "u1"
      asks_code
      "code1"
      registered_db
      (authorize (draws "x" "code1") "u1" asks_code registered_db).1
authorize-Authorized_example =
    authorize-Authorized (draws "x" "code1") "u1" asks_code registered_db
      (authorize (draws "x" "code1") "u1" asks_code registered_db).1 "code1"
      (λ i. (code_given i, (authorize (draws "x" "code1") "u1" asks_code registered_db).1))

authorize-SameTables_example :
    SameTables registered_db (authorize (draws "x" "code1") "u1" asks_unknown registered_db).1
authorize-SameTables_example =
    authorize-SameTables (draws "x" "code1") "u1" asks_unknown registered_db
      (authorize (draws "x" "code1") "u1" asks_unknown registered_db).1 invalid_client
      (λ i. (code_refused i, (authorize (draws "x" "code1") "u1" asks_unknown registered_db).1))

code_grant-Redeemed_example :
    Redeemed toy
      (draws "t1" "r1")
      (asks_token "authorization_code" "code1" "")
      authorized_db
      (token toy (draws "t1" "r1") (asks_token "authorization_code" "code1" "") authorized_db).1
      (record {
        access_token = "t1";
        token_type = "Bearer";
        expires_in = 900;
        refresh_token = "r1";
        scope = "mcp:search";
      })
unfolding token
code_grant-Redeemed_example =
    code_grant-Redeemed toy (draws "t1" "r1") (asks_token "authorization_code" "code1" "")
      authorized_db
      (token toy (draws "t1" "r1") (asks_token "authorization_code" "code1" "") authorized_db).1
      (record {
        access_token = "t1";
        token_type = "Bearer";
        expires_in = 900;
        refresh_token = "r1";
        scope = "mcp:search";
      })
      (λ i. (
        first_exchange i,
        (token toy (draws "t1" "r1") (asks_token "authorization_code" "code1" "") authorized_db).1,
      ))

cleaned :
    cleanup_tokens 900_000_000_011 redeemed_db
    ≡ (ok tt, (cleanup_tokens 900_000_000_011 redeemed_db).1)
unfolding cleanup_tokens delete_expired_access delete_expired_refresh keep lookup
cleaned = refl

-- fifteen minutes after the exchange
cleanup_tokens-Clean_example : Clean 900_000_000_011 (cleanup_tokens 900_000_000_011 redeemed_db).1
cleanup_tokens-Clean_example =
    cleanup_tokens-Clean 900_000_000_011 redeemed_db (cleanup_tokens 900_000_000_011 redeemed_db).1
      tt cleaned

-- and the refresh token, which has thirty days, is gone
renewal_lost : (cleanup_tokens 900_000_000_011 redeemed_db).1.refresh_tokens ≡ []
unfolding cleanup_tokens delete_expired_access delete_expired_refresh keep lookup
renewal_lost = refl

-- The parser of the signed texts reads every text as the claims of the first token.
abbrev reading : Config
reading = record toy {
  crypto = record toy_crypto { parse = λ at text. some (claims_of first_token 12) };
}

validate_access_token-claims_of_example :
    ((validate_access_token reading 20 21 "signed" redeemed_db).0
      ≡ ok (record {
        user_id = "u1";
        client_id = "c1";
        client_name = "app";
        scopes = "mcp:search" ∷ [];
        audience = "http://mcp";
      }))
    × (parse_scopes (response "signed" (new_refresh_token (draws "t1" "r1") first_token "r1")).scope
        ≡ "mcp:search" ∷ [])
unfolding lookup is_space
validate_access_token-claims_of_example =
    validate_access_token-claims_of reading 20 21 12 "signed" "r1" (draws "t1" "r1") first_token
      first_client redeemed_db refl (λ k. refl) refl refl refl refl refl
      ((refl, (refl, (refl, (refl, (refl, (refl, (refl, (refl, (refl, (refl, tt)))))))))), tt)

-- A scope with a space in it is read back as two.
two_words : fields (join ("a b" ∷ [])) ≡ "a" ∷ "b" ∷ []
unfolding fields scan join is_space
two_words = refl
