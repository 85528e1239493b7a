-- ===== src/OAuth/Stores/Rows.antt =====
-- Invariants that speak of single rows, at the level of the statements of
-- adapters/driven/postgres/oauth_server.go.
pub mod Codes
pub mod Tokens
use mathlib.Core.Path.{subst}
use sercha_core.Base.{
  exists_in, ℕ, String, Bool, true, false, not, ◌||◌, ◌≡◌, refl, inl, inr, Option, none, some, [],
  ◌∷◌, map, Table, Rows, Rows-modify, Rows-keep, Rows-remove, Rows-put, lookup-Rows, lookup, Result,
  ok, str_eq, if◌then◌else◌, Bool-cases, arith,
}
use sercha_core.OAuth.Domain.{OAuthClient, AuthorizationCode, OAuthAccessToken, OAuthRefreshToken}
use sercha_core.OAuth.Stores.{
  Db, called, mark_used, revoke_access, revoke_refresh, rotate, save_client, get_client,
  delete_client, save_code, get_and_mark_used, mark_row, cleanup_codes, save_access_token,
  get_access_token, revoke_access_token, save_refresh_token, get_refresh_token,
  revoke_refresh_token, rotate_refresh_token, revoke_all_for_client, revoke_access_rows,
  revoke_refresh_rows, cleanup_tokens, delete_expired_access, delete_expired_refresh,
}
use sercha_core.OAuth.Stores.Keeps.{Keeps, Keeps-bind, Gives}

-- One predicate for the rows of each table.
pub record RowPreds : Type 1 where
  pub on_client : String → OAuthClient → Type 0
  pub on_code : String → AuthorizationCode → Type 0
  pub on_access : String → OAuthAccessToken → Type 0
  pub on_refresh : String → OAuthRefreshToken → Type 0

pub record Holds (p : RowPreds) (db : Db) : Type 0 where
  pub clients : Rows p.on_client db.clients
  pub codes : Rows p.on_code db.codes
  pub access : Rows p.on_access db.access_tokens
  pub refresh : Rows p.on_refresh db.refresh_tokens

-- What the updates of single rows preserve.
pub record IsStable (p : RowPreds) : Type 0 where
  pub times :
      (k : String) (c : OAuthClient) (t u : ℕ)
      → p.on_client k c
      → p.on_client k (record c { created_at = t; updated_at = u })
  pub mark : (k : String) (c : AuthorizationCode) → p.on_code k c → p.on_code k (mark_used c)
  pub revoke_access_row :
      (k : String) (t : OAuthAccessToken) → p.on_access k t → p.on_access k (revoke_access t)
  pub revoke_refresh_row :
      (k : String) (t : OAuthRefreshToken) → p.on_refresh k t → p.on_refresh k (revoke_refresh t)
  pub rotate_row :
      (k new_id : String) (t : OAuthRefreshToken)
      → p.on_refresh k t
      → p.on_refresh k (rotate new_id t)

-- The state of a run that splits on a test.
pub either {ℓ} :
    {A : Type ℓ} (P : Db → Type 0) (b : Bool) (x y : Result A × Db)
    → (b ≡ true → P x.1)
    → (b ≡ false → P y.1)
    → P (if b then x else y).1
either P true x y h k = h refl
either P false x y h k = k refl

pub Rows-map {ℓ} :
    {V : Type ℓ} (P : String → V → Type 0) (test : V → Bool) (f : V → V) (t : Table V)
    → ((k : String) (v : V) → P k v → P k (f v))
    → Rows P t
    → Rows P (map (λ r. (r.0, if test r.1 then f r.1 else r.1)) t)
Rows-map P test f [] h r = tt
Rows-map P test f ((k, v) ∷ t) h r = elim (Bool-cases (test v)) [
  | inl e ↦ rw e (h k v r.0, Rows-map P test f t h r.1)
  | inr e ↦ rw e (r.0, Rows-map P test f t h r.1)
]

module _ (p : RowPreds) where
  pub same_Holds : {db : Db} → Holds p db → Holds p (called db)
  same_Holds h = record {
    clients = h.clients;
    codes = h.codes;
    access = h.access;
    refresh = h.refresh;
  }
