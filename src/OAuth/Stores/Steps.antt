-- ===== src/OAuth/Stores/Steps.antt =====
-- Reading a run of a program backwards: what the steps did, given how the run ended
-- (adapters/driven/postgres/oauth_server.go and its callers).
use sercha_core.Base.{
  exists_in, String, Bool, ◌||◌, not, not_found, true, false, ◌≡◌, refl, ap, Option, none, some,
  ◌∷◌, Error, internal, Result, ok, err, lookup, modify, arith, if◌then◌else◌, inl, inr, Bool-cases,
}
use sercha_core.OAuth.Domain.{OAuthClient, AuthorizationCode, OAuthAccessToken, OAuthRefreshToken}
use sercha_core.OAuth.Stores.{
  Db, Prog, after, called, found, given, mark_row, or_else, mark_used, rotate, get_client,
  get_and_mark_used, get_refresh_token, get_access_token, save_code, save_access_token,
  save_refresh_token, rotate_refresh_token,
}

module _ {B : Type 0} {b : B} {db' : Db} where
  -- A run that returns has run each of its steps.
  pub after-ok :
      {A : Type 0} (r : Result A × Db) (f : A → Prog B)
      → after r f ≡ (ok b, db')
      → (a : A) × (db : Db) × (r ≡ (ok a, db)) × (f a db ≡ (ok b, db'))
  after-ok (ok a, db) f h = (a, db, refl, h)
  after-ok (err e, db) f h = absurd (ground arith)

  -- It has passed each of its checks.
  pub require-ok :
      (t : Bool) (e : Error) (db : Db) (f : Unit {0} → Prog B)
      → after (if t then (ok tt, db) else (err e, db)) f ≡ (ok b, db')
      → (t ≡ true) × (f tt db ≡ (ok b, db'))
  require-ok true e db f h = (refl, h)
  require-ok false e db f h = absurd (ground arith)

  -- What it has drawn or computed was there.
  pub given-ok :
      {A : Type 0} (o : Option A) (e : Error) (db : Db) (f : A → Prog B)
      → after (given o e, db) f ≡ (ok b, db')
      → (a : A) × (o ≡ some a) × (f a db ≡ (ok b, db'))
  given-ok none e db f h = absurd (ground arith)
  given-ok (some a) e db f h = (a, refl, h)

  -- A row that the rest of the run goes on with was there.
  lookup_step :
      {A : Type 0} (t : Bool) (o : Option A) (e : Error) (db : Db) (f : A → Prog B)
      → after (or_else e (if t then (err internal, called db) else (found o, called db))) f
        ≡ (ok b, db')
      → (a : A) × (o ≡ some a) × (f a (called db) ≡ (ok b, db'))
  lookup_step true o e db f h = absurd (ground arith)
  lookup_step false none e db f h = absurd (ground arith)
  lookup_step false (some a) e db f h = (a, refl, h)

  -- A write that the rest of the run goes on with has passed its constraint.
  write_step :
      (t u : Bool) (e : Error) (db₁ db₂ : Db) (f : Unit {0} → Prog B)
      → after (if t then (err internal, db₁) else if u then (err e, db₁) else (ok tt, db₂)) f
        ≡ (ok b, db')
      → (u ≡ false) × (f tt db₂ ≡ (ok b, db'))
  write_step true u e db₁ db₂ f h = absurd (ground arith)
  write_step false true e db₁ db₂ f h = absurd (ground arith)
  write_step false false e db₁ db₂ f h = (refl, h)

  pub get_client-ok :
      (id : String) (e : Error) (db : Db) (f : OAuthClient → Prog B)
      → after (or_else e (get_client id db)) f ≡ (ok b, db')
      → (a : OAuthClient) × (lookup id db.clients ≡ some a) × (f a (called db) ≡ (ok b, db'))
  unfolding get_client
  get_client-ok id e db f h = lookup_step (db.down db.calls) (lookup id db.clients) e db f h

  pub get_access_token-ok :
      (id : String) (e : Error) (db : Db) (f : OAuthAccessToken → Prog B)
      → after (or_else e (get_access_token id db)) f ≡ (ok b, db')
      → (a : OAuthAccessToken) × (lookup id db.access_tokens ≡ some a)
        × (f a (called db) ≡ (ok b, db'))
  unfolding get_access_token
  get_access_token-ok id e db f h =
      lookup_step (db.down db.calls) (lookup id db.access_tokens) e db f h

  pub get_refresh_token-ok :
      (id : String) (e : Error) (db : Db) (f : OAuthRefreshToken → Prog B)
      → after (or_else e (get_refresh_token id db)) f ≡ (ok b, db')
      → (a : OAuthRefreshToken) × (lookup id db.refresh_tokens ≡ some a)
        × (f a (called db) ≡ (ok b, db'))
  unfolding get_refresh_token
  get_refresh_token-ok id e db f h =
      lookup_step (db.down db.calls) (lookup id db.refresh_tokens) e db f h

  mark_step :
      (t : Bool) (o : Option AuthorizationCode) (code : String) (e : Error) (db : Db)
      (f : AuthorizationCode → Prog B)
      → after (or_else e (if t then (err internal, called db) else mark_row code o (called db))) f
        ≡ (ok b, db')
      → (c : AuthorizationCode) × (o ≡ some c)
        × (c.used ≡ false)
        × (f (mark_used c) (record (called db) { codes = modify code mark_used db.codes })
            ≡ (ok b, db'))
  mark_step true o code e db f h = absurd (ground arith)
  mark_step false none code e db f h = absurd (ground arith)
  mark_step false (some c) code e db f h = elim (Bool-cases c.used) [
    | inl u ↦ absurd (ground arith)
    | inr u ↦ (c, refl, u, rw u at h)
  ]

  pub get_and_mark_used-ok :
      (code : String) (e : Error) (db : Db) (f : AuthorizationCode → Prog B)
      → after (or_else e (get_and_mark_used code db)) f ≡ (ok b, db')
      → (c : AuthorizationCode) × (lookup code db.codes ≡ some c)
        × (c.used ≡ false)
        × (f (mark_used c) (record (called db) { codes = modify code mark_used db.codes })
            ≡ (ok b, db'))
  unfolding get_and_mark_used
  get_and_mark_used-ok code e db f h =
      mark_step (db.down db.calls) (lookup code db.codes) code e db f h

  pub save_code-ok :
      (r : AuthorizationCode) (db : Db) (f : Unit {0} → Prog B)
      → after (save_code r db) f ≡ (ok b, db')
      → (lookup r.code db.codes ≡ none)
        × (f tt (record (called db) { codes = (r.code, r) ∷ db.codes }) ≡ (ok b, db'))
  unfolding save_code
  save_code-ok r db f h =
      let s =
        write_step (db.down db.calls)
          (exists_in r.code db.codes || not (exists_in r.client_id db.clients)) internal (called db)
          (record (called db) { codes = (r.code, r) ∷ db.codes }) f h in
      (ground arith, s.1)

  pub save_access_token-ok :
      (r : OAuthAccessToken) (db : Db) (f : Unit {0} → Prog B)
      → after (save_access_token r db) f ≡ (ok b, db')
      → (lookup r.id db.access_tokens ≡ none)
        × (f tt (record (called db) { access_tokens = (r.id, r) ∷ db.access_tokens }) ≡ (ok b, db'))
  unfolding save_access_token
  save_access_token-ok r db f h =
      let s =
        write_step (db.down db.calls)
          (exists_in r.id db.access_tokens || not (exists_in r.client_id db.clients)) internal
          (called db) (record (called db) { access_tokens = (r.id, r) ∷ db.access_tokens }) f h in
      (ground arith, s.1)

  pub save_refresh_token-ok :
      (r : OAuthRefreshToken) (db : Db) (f : Unit {0} → Prog B)
      → after (save_refresh_token r db) f ≡ (ok b, db')
      → (lookup r.id db.refresh_tokens ≡ none)
        × (f tt (record (called db) { refresh_tokens = (r.id, r) ∷ db.refresh_tokens })
            ≡ (ok b, db'))
  unfolding save_refresh_token
  save_refresh_token-ok r db f h =
      let s =
        write_step (db.down db.calls)
          (exists_in r.id db.refresh_tokens
            || (not (exists_in r.access_token_id db.access_tokens)
                || not (exists_in r.client_id db.clients)))
          internal (called db)
          (record (called db) { refresh_tokens = (r.id, r) ∷ db.refresh_tokens }) f h in
      (ground arith, s.1)

  rotate_step :
      (t u : Bool) (db₁ db₂ : Db) (f : Unit {0} → Prog B)
      → after
          (if t then (err internal, db₁) else if u then (ok tt, db₂) else (err not_found, db₁))
          f
        ≡ (ok b, db')
      → f tt db₂ ≡ (ok b, db')
  rotate_step true u db₁ db₂ f h = absurd (ground arith)
  rotate_step false true db₁ db₂ f h = h
  rotate_step false false db₁ db₂ f h = absurd (ground arith)

  pub rotate_refresh_token-ok :
      (old_id new_id : String) (db : Db) (f : Unit {0} → Prog B)
      → after (rotate_refresh_token old_id new_id db) f ≡ (ok b, db')
      → f tt
          (record (called db) { refresh_tokens = modify old_id (rotate new_id) db.refresh_tokens })
        ≡ (ok b, db')
  unfolding rotate_refresh_token
  rotate_refresh_token-ok old_id new_id db f h =
      rotate_step (db.down db.calls) (exists_in old_id db.refresh_tokens) (called db)
        (record (called db) { refresh_tokens = modify old_id (rotate new_id) db.refresh_tokens }) f
        h

-- A run ends with its result and its state.
pub pure-ok :
    {C : Type 0} (a : C) {c : C} (db : Db) {db' : Db}
    → ◌≡◌ {A = Result C × Db} (ok a, db) (ok c, db')
    → (a ≡ c) × (db ≡ db')
pure-ok {C} a db h = (ground arith, ap (λ (r : Result C × Db). r.1) h)

pub require-end :
    (t : Bool) (e : Error) (db : Db) {u : Unit {0}} {db' : Db}
    → ◌≡◌ {A = Result (Unit {0}) × Db} (if t then (ok tt, db) else (err e, db)) (ok u, db')
    → (t ≡ true) × (db ≡ db')
require-end true e db h = (refl, (pure-ok tt db h).1)
require-end false e db h = absurd (ground arith)
