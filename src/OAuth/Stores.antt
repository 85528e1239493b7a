-- ===== src/OAuth/Stores.antt =====
-- adapters/driven/postgres/oauth_server.go over the tables of migrations/0001_initial_schema.sql.
-- Each statement is one call of the database driver, which fails when `down` says so and then
-- changes nothing; a taken primary key or a dangling reference fails an INSERT. Rows of a deleted
-- client or of a deleted access token go with it (ON DELETE CASCADE). The users table is not part
-- of the state.
pub mod Steps
pub mod Keeps
pub mod Rows
pub mod Cleanup
use sercha_core.Base.{
  exists_in, ℕ, suc, String, Bool, true, false, not, ◌&&◌, ◌||◌, Option, none, some, List, [], ◌∷◌,
  map, Table, lookup, modify, remove, put, keep, contains, Error, not_found, internal, Result, ok,
  err, ltb, ◌==◌, str_eq, if◌then◌else◌,
}
use sercha_core.OAuth.Domain.{OAuthClient, AuthorizationCode, OAuthAccessToken, OAuthRefreshToken}

pub record Db : Type 0 where
  pub clients : Table OAuthClient
  pub codes : Table AuthorizationCode
  pub access_tokens : Table OAuthAccessToken
  pub refresh_tokens : Table OAuthRefreshToken
  pub calls : ℕ
  pub down : ℕ → Bool

-- A program over the database that returns or fails; what it has written stays written.
abbrev pub Prog : Type 0 → Type 0
Prog A = Db → Result A × Db

abbrev pub after {ℓ} : {A : Type ℓ} {B : Type 0} → Result A × Db → (A → Prog B) → Result B × Db
after (ok a, db) f = f a db
after (err e, db) f = (err e, db)

infixl 5 ◌>>=◌ ◌>>◌
abbrev pub ◌>>=◌ : {A B : Type 0} → Prog A → (A → Prog B) → Prog B
◌>>=◌ m f db = after (m db) f

abbrev pub ◌>>◌ : {B : Type 0} → Prog (Unit {0}) → Prog B → Prog B
m >> k = m >>= λ _. k

abbrev pub pure : {A : Type 0} → A → Prog A
pure a db = (ok a, db)

abbrev pub fail : {A : Type 0} → Error → Prog A
fail e db = (err e, db)

abbrev pub lift : {A : Type 0} → Result A → Prog A
lift r db = (r, db)

-- what a call that may fail has drawn or computed
abbrev pub given {ℓ} : {A : Type ℓ} → Option A → Error → Result A
given none e = err e
given (some a) e = ok a

abbrev pub require : Bool → Error → Prog (Unit {0})
require b e db = if b then (ok tt, db) else (err e, db)

-- `if err != nil { return e }` in place of the error of the call
abbrev pub or_else {ℓ} : {A : Type ℓ} → Error → Result A × Db → Result A × Db
or_else e (ok a, db) = (ok a, db)
or_else e (err _, db) = (err e, db)

abbrev pub failing_as : {A : Type 0} → Error → Prog A → Prog A
failing_as e m db = or_else e (m db)

-- One call of the driver.
abbrev pub called : Db → Db
called db = record db { calls = suc db.calls }

abbrev pub statement : {A : Type 0} → Prog A → Prog A
statement run db = if db.down db.calls then (err internal, called db) else run (called db)

abbrev pub found {ℓ} : {A : Type ℓ} → Option A → Result A
found o = given o not_found

-- OAuthClientStore.Save: ON CONFLICT keeps the creation time of the row.
abbrev created_of : ℕ → Option OAuthClient → ℕ
created_of now none = now
created_of now (some old) = old.created_at

unfoldable pub save_client : ℕ → OAuthClient → Prog (Unit {0})
save_client now c =
    let given = if c.created_at == 0 then now else c.created_at in
    statement λ db. (
      ok tt,
      record db {
        clients =
            put c.id
              (record c {
                created_at = created_of given (lookup c.id db.clients);
                updated_at = now;
              })
              db.clients;
      },
    )

unfoldable pub get_client : String → Prog OAuthClient
get_client id = statement λ db. (found (lookup id db.clients), db)

unfoldable pub delete_client : String → Prog (Unit {0})
delete_client id = statement λ db.
    if exists_in id db.clients
    then (let kept = keep (λ t. not (str_eq t.client_id id)) db.access_tokens in
        (
          ok tt,
          record db {
            clients = remove id db.clients;
            codes = keep (λ c. not (str_eq c.client_id id)) db.codes;
            access_tokens = kept;
            refresh_tokens =
                keep (λ t. not (str_eq t.client_id id) && exists_in t.access_token_id kept)
                  db.refresh_tokens;
          },
        ))
    else (err not_found, db)

unfoldable pub save_code : AuthorizationCode → Prog (Unit {0})
save_code c = statement λ db.
    if exists_in c.code db.codes || not (exists_in c.client_id db.clients)
    then (err internal, db)
    else (ok tt, record db { codes = (c.code, c) ∷ db.codes })

abbrev pub mark_used : AuthorizationCode → AuthorizationCode
mark_used c = record c { used = true }

-- UPDATE ... SET used = true WHERE code = $1 AND used = false RETURNING ...
abbrev pub mark_row : String → Option AuthorizationCode → Prog AuthorizationCode
mark_row code none db = (err not_found, db)
mark_row code (some c) db =
    if c.used
    then (err not_found, db)
    else (ok (mark_used c), record db { codes = modify code mark_used db.codes })

unfoldable pub get_and_mark_used : String → Prog AuthorizationCode
get_and_mark_used code = statement λ db. mark_row code (lookup code db.codes) db

-- DELETE ... WHERE expires_at < NOW()
unfoldable pub cleanup_codes : ℕ → Prog (Unit {0})
cleanup_codes now =
    statement λ db. (ok tt, record db { codes = keep (λ c. not (ltb c.expires_at now)) db.codes })

unfoldable pub save_access_token : OAuthAccessToken → Prog (Unit {0})
save_access_token t = statement λ db.
    if exists_in t.id db.access_tokens || not (exists_in t.client_id db.clients)
    then (err internal, db)
    else (ok tt, record db { access_tokens = (t.id, t) ∷ db.access_tokens })

unfoldable pub get_access_token : String → Prog OAuthAccessToken
get_access_token id = statement λ db. (found (lookup id db.access_tokens), db)

abbrev pub revoke_access : OAuthAccessToken → OAuthAccessToken
revoke_access t = record t { revoked = true }

unfoldable pub revoke_access_token : String → Prog (Unit {0})
revoke_access_token id = statement λ db.
    if exists_in id db.access_tokens
    then (ok tt, record db { access_tokens = modify id revoke_access db.access_tokens })
    else (err not_found, db)

unfoldable pub save_refresh_token : OAuthRefreshToken → Prog (Unit {0})
save_refresh_token t = statement λ db.
    if exists_in t.id db.refresh_tokens
      || (not (exists_in t.access_token_id db.access_tokens)
          || not (exists_in t.client_id db.clients))
    then (err internal, db)
    else (ok tt, record db { refresh_tokens = (t.id, t) ∷ db.refresh_tokens })

unfoldable pub get_refresh_token : String → Prog OAuthRefreshToken
get_refresh_token id = statement λ db. (found (lookup id db.refresh_tokens), db)

abbrev pub revoke_refresh : OAuthRefreshToken → OAuthRefreshToken
revoke_refresh t = record t { revoked = true }

unfoldable pub revoke_refresh_token : String → Prog (Unit {0})
revoke_refresh_token id = statement λ db.
    if exists_in id db.refresh_tokens
    then (ok tt, record db { refresh_tokens = modify id revoke_refresh db.refresh_tokens })
    else (err not_found, db)

abbrev pub rotate : String → OAuthRefreshToken → OAuthRefreshToken
rotate new_id t = record t { rotated_to = new_id; revoked = true }

unfoldable pub rotate_refresh_token : String → String → Prog (Unit {0})
rotate_refresh_token old_id new_id = statement λ db.
    if exists_in old_id db.refresh_tokens
    then (ok tt, record db { refresh_tokens = modify old_id (rotate new_id) db.refresh_tokens })
    else (err not_found, db)

unfoldable pub revoke_access_rows : String → Prog (Unit {0})
revoke_access_rows client_id = statement λ db. (
  ok tt,
  record db {
    access_tokens =
        map (λ r. (r.0, if str_eq (r.1).client_id client_id then revoke_access r.1 else r.1))
          db.access_tokens;
  },
)

unfoldable pub revoke_refresh_rows : String → Prog (Unit {0})
revoke_refresh_rows client_id = statement λ db. (
  ok tt,
  record db {
    refresh_tokens =
        map (λ r. (r.0, if str_eq (r.1).client_id client_id then revoke_refresh r.1 else r.1))
          db.refresh_tokens;
  },
)

-- Two statements, with no transaction around them.
unfoldable pub revoke_all_for_client : String → Prog (Unit {0})
revoke_all_for_client client_id = revoke_access_rows client_id >> revoke_refresh_rows client_id

abbrev pub add_distinct : String → List String → List String
add_distinct a xs = if contains xs a then xs else a ∷ xs

-- SELECT DISTINCT of a column over the live refresh tokens that pass the test
abbrev pub distinct_of :
    (OAuthRefreshToken → Bool)
    → (OAuthRefreshToken → String)
    → Table OAuthRefreshToken
    → List String
distinct_of p column [] = []
distinct_of p column ((_, t) ∷ rows) =
    let others = distinct_of p column rows in if p t then add_distinct (column t) others else others

abbrev pub connected : ℕ → OAuthRefreshToken → Bool
connected now t = not t.revoked && ltb now t.expires_at

unfoldable pub list_users_for_client : ℕ → String → Prog (List String)
list_users_for_client now client_id = statement λ db. (
  ok (
      distinct_of (λ t. str_eq t.client_id client_id && connected now t) (λ t. t.user_id)
        db.refresh_tokens),
  db,
)

unfoldable pub list_clients_for_user : ℕ → String → Prog (List String)
list_clients_for_user now user_id = statement λ db. (
  ok (
      distinct_of (λ t. str_eq t.user_id user_id && connected now t) (λ t. t.client_id)
        db.refresh_tokens),
  db,
)

-- DELETE of the expired access tokens, and with each of the refresh tokens that name it
-- (access_token_id REFERENCES oauth_access_tokens ON DELETE CASCADE)
unfoldable pub delete_expired_access : ℕ → Prog (Unit {0})
delete_expired_access now = statement λ db.
    (let kept = keep (λ t. not (ltb t.expires_at now)) db.access_tokens in
      (
        ok tt,
        record db {
          access_tokens = kept;
          refresh_tokens = keep (λ t. exists_in t.access_token_id kept) db.refresh_tokens;
        },
      ))

unfoldable pub delete_expired_refresh : ℕ → Prog (Unit {0})
delete_expired_refresh now = statement λ db.
    (ok tt, record db { refresh_tokens = keep (λ t. not (ltb t.expires_at now)) db.refresh_tokens })

-- Two statements, with no transaction around them.
unfoldable pub cleanup_tokens : ℕ → Prog (Unit {0})
cleanup_tokens now = delete_expired_access now >> delete_expired_refresh now
