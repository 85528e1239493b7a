-- ===== src/OAuth/Stores/Rows/Codes.antt =====
-- The statements on clients and codes keep the invariants of rows
-- (adapters/driven/postgres/oauth_server.go).
use mathlib.Core.Path.{subst}
use sercha_core.Base.{
  exists_in, ℕ, String, not, ◌||◌, ◌≡◌, refl, Option, none, some, Rows-modify, Rows-keep,
  Rows-remove, Rows-put, lookup-Rows, lookup, ok, arith,
}
use sercha_core.OAuth.Domain.{OAuthClient, AuthorizationCode}
use sercha_core.OAuth.Stores.{
  Db, called, mark_used, save_client, get_client, delete_client, save_code, get_and_mark_used,
  mark_row, cleanup_codes,
}
use sercha_core.OAuth.Stores.Keeps.{Keeps, Gives}
use sercha_core.OAuth.Stores.Rows.{RowPreds, Holds, IsStable, either, same_Holds}

module _ (p : RowPreds) (s : IsStable p) where
  pub save_client-Holds :
      (now : ℕ) (c : OAuthClient) → p.on_client c.id c → Keeps (Holds p) (save_client now c)
  unfolding save_client
  save_client-Holds now c new = record {
    at = λ db h.
        either (Holds p) (db.down db.calls) _ _ (λ _. same_Holds p h)
          λ _. record {
            clients = Rows-put p.on_client c.id _ db.clients (s.times c.id c _ _ new) h.clients;
            codes = h.codes;
            access = h.access;
            refresh = h.refresh;
          };
  }

  pub get_client-Holds : (id : String) → Keeps (Holds p) (get_client id)
  unfolding get_client
  get_client-Holds id = record {
    at =
        λ db h. either (Holds p) (db.down db.calls) _ _ (λ _. same_Holds p h) (λ _. same_Holds p h);
  }

  pub save_code-Holds : (c : AuthorizationCode) → p.on_code c.code c → Keeps (Holds p) (save_code c)
  unfolding save_code
  save_code-Holds c new = record {
    at = λ db h.
        either (Holds p) (db.down db.calls) _ _ (λ _. same_Holds p h)
          (λ _.
            either (Holds p) (exists_in c.code db.codes || not (exists_in c.client_id db.clients)) _
              _ (λ _. same_Holds p h)
              (λ _. record {
                clients = h.clients;
                codes = (new, h.codes);
                access = h.access;
                refresh = h.refresh;
              }));
  }

  mark_row-Holds :
      (code : String) (o : Option AuthorizationCode) (db : Db)
      → Holds p db
      → Holds p (mark_row code o db).1
  mark_row-Holds code none db h = h
  mark_row-Holds code (some c) db h =
      either (Holds p) c.used _ _ (λ _. h)
        λ _. record {
          clients = h.clients;
          codes = Rows-modify p.on_code code mark_used db.codes s.mark h.codes;
          access = h.access;
          refresh = h.refresh;
        }

  pub get_and_mark_used-Holds : (code : String) → Keeps (Holds p) (get_and_mark_used code)
  unfolding get_and_mark_used
  get_and_mark_used-Holds code = record {
    at = λ db h.
        either (Holds p) (db.down db.calls) _ _ (λ _. same_Holds p h)
          λ _. mark_row-Holds code (lookup code db.codes) (called db) (same_Holds p h);
  }

  pub cleanup_codes-Holds : (now : ℕ) → Keeps (Holds p) (cleanup_codes now)
  unfolding cleanup_codes
  cleanup_codes-Holds now = record {
    at = λ db h.
        either (Holds p) (db.down db.calls) _ _ (λ _. same_Holds p h)
          λ _. record {
            clients = h.clients;
            codes = Rows-keep p.on_code _ db.codes h.codes;
            access = h.access;
            refresh = h.refresh;
          };
  }

  pub delete_client-Holds : (id : String) → Keeps (Holds p) (delete_client id)
  unfolding delete_client
  delete_client-Holds id = record {
    at = λ db h.
        either (Holds p) (db.down db.calls) _ _ (λ _. same_Holds p h)
          λ _.
            either (Holds p) (exists_in id db.clients) _ _
              (λ _. record {
                clients = Rows-remove p.on_client id db.clients h.clients;
                codes = Rows-keep p.on_code _ db.codes h.codes;
                access = Rows-keep p.on_access _ db.access_tokens h.access;
                refresh = Rows-keep p.on_refresh _ db.refresh_tokens h.refresh;
              })
              (λ _. same_Holds p h);
  }

  pub get_client-Gives : (id : String) → Gives (Holds p) (get_client id) (p.on_client id)
  unfolding get_client
  get_client-Gives id = record {
    at = λ db h a db' q. lookup-Rows p.on_client id db.clients h.clients (ground arith);
  }

  mark_row-Gives :
      (code : String) (o : Option AuthorizationCode) (db db' : Db) (a : AuthorizationCode)
      → ((c : AuthorizationCode) → o ≡ some c → p.on_code code c)
      → mark_row code o db ≡ (ok a, db')
      → p.on_code code a
  mark_row-Gives code none db db' a k q = absurd (ground arith)
  mark_row-Gives code (some c) db db' a k q =
      subst (p.on_code code) (ground arith) (s.mark code c (k c refl))

  pub get_and_mark_used-Gives :
      (code : String) → Gives (Holds p) (get_and_mark_used code) (p.on_code code)
  unfolding get_and_mark_used
  get_and_mark_used-Gives code = record {
    at = λ db h a db' q.
        mark_row-Gives code (lookup code db.codes) (called db) db' a
          (λ c e. lookup-Rows p.on_code code db.codes h.codes e) (ground arith);
  }
