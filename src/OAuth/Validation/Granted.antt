-- ===== src/OAuth/Validation/Granted.antt =====
-- ValidateAccessToken on the tokens that generateAccessToken signs, core/services/oauth_server.go, and
-- the scope that Token returns, read by ParseScopes of core/domain/oauth_server.go.
use sercha_core.Base.{ℕ, suc, String, false, ◌≡◌, refl, sym, some, All, lookup, ok, eq_refl}
use sercha_core.OAuth.Domain.{OAuthClient, OAuthAccessToken, is_expired}
use sercha_core.OAuth.External.{Config}
use sercha_core.OAuth.Scopes.{parse_scopes}
use sercha_core.OAuth.Scopes.Roundtrip.{IsWord, fields-join, parse_scopes-join}
use sercha_core.OAuth.Stores.{Db, get_client, get_access_token}
use sercha_core.OAuth.Exchange.{claims_of, response, new_refresh_token}
use sercha_core.OAuth.External.{Draws}
use sercha_core.OAuth.Validation.{validate_access_token}

-- For a text that the parser reads as the claims that were signed for a token, in a database that
-- answers and has the token, neither revoked nor expired and for this server, and its client: where
-- no scope is empty or has a space in it, ValidateAccessToken returns the user, the client and the
-- scopes of the token; and ParseScopes reads the scope of the response for the token as the same
-- scopes, so that a request may ask for them again.
pub validate_access_token-claims_of :
    (cfg : Config) (parsed_at now signed_at : ℕ) (text refresh_id : String) (d : Draws)
    (t : OAuthAccessToken) (c : OAuthClient) (db : Db)
    → cfg.crypto.parse parsed_at text ≡ some (claims_of t signed_at)
    → ((k : ℕ) → db.down k ≡ false)
    → lookup t.id db.access_tokens ≡ some t
    → t.revoked ≡ false
    → is_expired t.expires_at now ≡ false
    → t.audience ≡ cfg.mcp_server_url
    → lookup t.client_id db.clients ≡ some c
    → All IsWord t.scopes
    → ((validate_access_token cfg parsed_at now text db).0
        ≡ ok (record {
          user_id = t.user_id;
          client_id = t.client_id;
          client_name = c.name;
          scopes = t.scopes;
          audience = t.audience;
        }))
      × (parse_scopes (response text (new_refresh_token d t refresh_id)).scope ≡ t.scopes)
unfolding validate_access_token get_access_token get_client claims_of response new_refresh_token
validate_access_token-claims_of cfg parsed_at now signed_at text refresh_id d t c db read up stored
      valid in_time for_us known words =
    (
      rw
          (
            read,
            up db.calls,
            stored,
            valid,
            in_time,
            sym for_us,
            eq_refl t.audience,
            up (suc db.calls),
            known,
            fields-join t.scopes words,
          )
          refl,
      parse_scopes-join t.scopes words,
    )
