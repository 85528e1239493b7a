-- ===== src/OAuth/Stores/Rows/Tokens.antt =====
-- The statements on tokens keep the invariants of rows (adapters/driven/postgres/oauth_server.go).
use sercha_core.Base.{
  exists_in, ℕ, String, not, ◌||◌, Rows-modify, Rows-keep, lookup-Rows, str_eq, arith,
}
use sercha_core.OAuth.Domain.{OAuthAccessToken, OAuthRefreshToken}
use sercha_core.OAuth.Stores.{
  revoke_access, revoke_refresh, rotate, save_access_token, get_access_token, revoke_access_token,
  save_refresh_token, get_refresh_token, revoke_refresh_token, rotate_refresh_token,
  revoke_all_for_client, revoke_access_rows, revoke_refresh_rows, cleanup_tokens,
  delete_expired_access, delete_expired_refresh,
}
use sercha_core.OAuth.Stores.Keeps.{Keeps, Keeps-bind, Gives}
use sercha_core.OAuth.Stores.Rows.{RowPreds, Holds, IsStable, either, same_Holds, Rows-map}

module _ (p : RowPreds) (s : IsStable p) where
  pub get_access_token-Holds : (id : String) → Keeps (Holds p) (get_access_token id)
  unfolding get_access_token
  get_access_token-Holds id = record {
    at =
        λ db h. either (Holds p) (db.down db.calls) _ _ (λ _. same_Holds p h) (λ _. same_Holds p h);
  }

  pub get_refresh_token-Holds : (id : String) → Keeps (Holds p) (get_refresh_token id)
  unfolding get_refresh_token
  get_refresh_token-Holds id = record {
    at =
        λ db h. either (Holds p) (db.down db.calls) _ _ (λ _. same_Holds p h) (λ _. same_Holds p h);
  }

  pub save_access_token-Holds :
      (t : OAuthAccessToken) → p.on_access t.id t → Keeps (Holds p) (save_access_token t)
  unfolding save_access_token
  save_access_token-Holds t new = record {
    at = λ db h.
        either (Holds p) (db.down db.calls) _ _ (λ _. same_Holds p h)
          λ _.
            either (Holds p)
              (exists_in t.id db.access_tokens || not (exists_in t.client_id db.clients)) _ _
              (λ _. same_Holds p h)
              λ _. record {
                clients = h.clients;
                codes = h.codes;
                access = (new, h.access);
                refresh = h.refresh;
              };
  }

  pub save_refresh_token-Holds :
      (t : OAuthRefreshToken) → p.on_refresh t.id t → Keeps (Holds p) (save_refresh_token t)
  unfolding save_refresh_token
  save_refresh_token-Holds t new = record {
    at = λ db h.
        either (Holds p) (db.down db.calls) _ _ (λ _. same_Holds p h)
          λ _.
            either (Holds p)
              (exists_in t.id db.refresh_tokens
                || (not (exists_in t.access_token_id db.access_tokens)
                    || not (exists_in t.client_id db.clients)))
              _ _ (λ _. same_Holds p h)
              λ _. record {
                clients = h.clients;
                codes = h.codes;
                access = h.access;
                refresh = (new, h.refresh);
              };
  }

  pub revoke_access_token-Holds : (id : String) → Keeps (Holds p) (revoke_access_token id)
  unfolding revoke_access_token
  revoke_access_token-Holds id = record {
    at = λ db h.
        either (Holds p) (db.down db.calls) _ _ (λ _. same_Holds p h)
          λ _.
            either (Holds p) (exists_in id db.access_tokens) _ _
              (λ _. record {
                clients = h.clients;
                codes = h.codes;
                access =
                    Rows-modify p.on_access id revoke_access db.access_tokens s.revoke_access_row
                      h.access;
                refresh = h.refresh;
              })
              (λ _. same_Holds p h);
  }

  pub revoke_refresh_token-Holds : (id : String) → Keeps (Holds p) (revoke_refresh_token id)
  unfolding revoke_refresh_token
  revoke_refresh_token-Holds id = record {
    at = λ db h.
        either (Holds p) (db.down db.calls) _ _ (λ _. same_Holds p h)
          λ _.
            either (Holds p) (exists_in id db.refresh_tokens) _ _
              (λ _. record {
                clients = h.clients;
                codes = h.codes;
                access = h.access;
                refresh =
                    Rows-modify p.on_refresh id revoke_refresh db.refresh_tokens
                      s.revoke_refresh_row h.refresh;
              })
              (λ _. same_Holds p h);
  }

  pub rotate_refresh_token-Holds :
      (id new_id : String) → Keeps (Holds p) (rotate_refresh_token id new_id)
  unfolding rotate_refresh_token
  rotate_refresh_token-Holds id new_id = record {
    at = λ db h.
        either (Holds p) (db.down db.calls) _ _ (λ _. same_Holds p h)
          λ _.
            either (Holds p) (exists_in id db.refresh_tokens) _ _
              (λ _. record {
                clients = h.clients;
                codes = h.codes;
                access = h.access;
                refresh =
                    Rows-modify p.on_refresh id (rotate new_id) db.refresh_tokens
                      (λ k t. s.rotate_row k new_id t) h.refresh;
              })
              (λ _. same_Holds p h);
  }

  revoke_access_rows-Holds : (id : String) → Keeps (Holds p) (revoke_access_rows id)
  unfolding revoke_access_rows
  revoke_access_rows-Holds id = record {
    at = λ db h.
        either (Holds p) (db.down db.calls) _ _ (λ _. same_Holds p h)
          λ _. record {
            clients = h.clients;
            codes = h.codes;
            access =
                Rows-map p.on_access (λ t. str_eq t.client_id id) revoke_access db.access_tokens
                  s.revoke_access_row h.access;
            refresh = h.refresh;
          };
  }

  revoke_refresh_rows-Holds : (id : String) → Keeps (Holds p) (revoke_refresh_rows id)
  unfolding revoke_refresh_rows
  revoke_refresh_rows-Holds id = record {
    at = λ db h.
        either (Holds p) (db.down db.calls) _ _ (λ _. same_Holds p h)
          λ _. record {
            clients = h.clients;
            codes = h.codes;
            access = h.access;
            refresh =
                Rows-map p.on_refresh (λ t. str_eq t.client_id id) revoke_refresh db.refresh_tokens
                  s.revoke_refresh_row h.refresh;
          };
  }

  pub revoke_all_for_client-Holds : (id : String) → Keeps (Holds p) (revoke_all_for_client id)
  unfolding revoke_all_for_client
  revoke_all_for_client-Holds id =
      Keeps-bind _ _ (revoke_access_rows-Holds id) (λ _. revoke_refresh_rows-Holds id)

  delete_expired_access-Holds : (now : ℕ) → Keeps (Holds p) (delete_expired_access now)
  unfolding delete_expired_access
  delete_expired_access-Holds now = record {
    at = λ db h.
        either (Holds p) (db.down db.calls) _ _ (λ _. same_Holds p h)
          λ _. record {
            clients = h.clients;
            codes = h.codes;
            access = Rows-keep p.on_access _ db.access_tokens h.access;
            refresh = Rows-keep p.on_refresh _ db.refresh_tokens h.refresh;
          };
  }

  delete_expired_refresh-Holds : (now : ℕ) → Keeps (Holds p) (delete_expired_refresh now)
  unfolding delete_expired_refresh
  delete_expired_refresh-Holds now = record {
    at = λ db h.
        either (Holds p) (db.down db.calls) _ _ (λ _. same_Holds p h)
          λ _. record {
            clients = h.clients;
            codes = h.codes;
            access = h.access;
            refresh = Rows-keep p.on_refresh _ db.refresh_tokens h.refresh;
          };
  }

  pub cleanup_tokens-Holds : (now : ℕ) → Keeps (Holds p) (cleanup_tokens now)
  unfolding cleanup_tokens
  cleanup_tokens-Holds now =
      Keeps-bind _ _ (delete_expired_access-Holds now) (λ _. delete_expired_refresh-Holds now)

  -- What is read satisfies the predicate of its table.

  pub get_refresh_token-Gives :
      (id : String) → Gives (Holds p) (get_refresh_token id) (p.on_refresh id)
  unfolding get_refresh_token
  get_refresh_token-Gives id = record {
    at = λ db h a db' q. lookup-Rows p.on_refresh id db.refresh_tokens h.refresh (ground arith);
  }
