-- ===== src/OAuth/Stores/Keeps.antt =====
-- Properties of programs over the database that are proved step by step: what every run keeps, and
-- what a failing run leaves alone (adapters/driven/postgres/oauth_server.go and its callers).
use mathlib.Core.Path.{subst}
use sercha_core.Base.{
  Bool, true, false, ◌≡◌, refl, ◌∙◌, Error, Result, ok, err, arith, ap, if◌then◌else◌, Option, none,
  some,
}
use sercha_core.OAuth.Stores.{
  Db, Prog, after, ◌>>=◌, pure, fail, lift, require, failing_as, or_else, given,
}

-- Whether `m` returns or fails, `P` holds afterwards if it held before.
pub record Keeps {A : Type 0} (P : Db → Type 0) (m : Prog A) : Type 0 where
  pub at : (db : Db) → P db → P (m db).1

require_state : (P : Db → Type 0) (b : Bool) (e : Error) (db : Db) → P db → P (require b e db).1
require_state P true e db h = h
require_state P false e db h = h

failing_state :
    {A : Type 0} (P : Db → Type 0) (e : Error) (r : Result A × Db) → P r.1 → P (or_else e r).1
failing_state P e (ok a, db) h = h
failing_state P e (err x, db) h = h

module _ {P : Db → Type 0} where
  pub Keeps-pure : {A : Type 0} (a : A) → Keeps P (pure a)
  Keeps-pure a = record { at = λ db h. h }

  pub Keeps-fail : {A : Type 0} (e : Error) → Keeps P (fail {A = A} e)
  Keeps-fail e = record { at = λ db h. h }

  pub Keeps-lift : {A : Type 0} (r : Result A) → Keeps P (lift r)
  Keeps-lift r = record { at = λ db h. h }

  pub Keeps-require : (b : Bool) (e : Error) → Keeps P (require b e)
  Keeps-require b e = record { at = require_state P b e }

  pub Keeps-failing_as :
      {A : Type 0} (e : Error) (m : Prog A) → Keeps P m → Keeps P (failing_as e m)
  Keeps-failing_as e m k = record { at = λ db h. failing_state P e (m db) (k.at db h) }

  after_state :
      {A B : Type 0} (r : Result A × Db) (f : A → Prog B)
      → P r.1
      → ((a : A) → Keeps P (f a))
      → P (after r f).1
  after_state (ok a, db) f h k = (k a).at db h
  after_state (err e, db) f h k = h

  pub Keeps-bind :
      {A B : Type 0} (m : Prog A) (f : A → Prog B)
      → Keeps P m
      → ((a : A) → Keeps P (f a))
      → Keeps P (m >>= f)
  Keeps-bind m f km kf = record { at = λ db h. after_state (m db) f (km.at db h) kf }

  pub Keeps-if :
      {A : Type 0} (b : Bool) (m n : Prog A) → Keeps P m → Keeps P n → Keeps P (if b then m else n)
  Keeps-if true m n km kn = km
  Keeps-if false m n km kn = kn

pub ruleset keeps_rules =
    (Keeps-pure, Keeps-fail, Keeps-lift, Keeps-require, Keeps-failing_as, Keeps-if, Keeps-bind)

-- Two states with the same tables; the calls made may differ.
pub record SameTables (db db' : Db) : Type 0 where
  pub clients : db'.clients ≡ db.clients
  pub codes : db'.codes ≡ db.codes
  pub access_tokens : db'.access_tokens ≡ db.access_tokens
  pub refresh_tokens : db'.refresh_tokens ≡ db.refresh_tokens

-- A run that fails has changed no table.
pub record IsAtomic {A : Type 0} (m : Prog A) : Type 0 where
  pub at : (db : Db) (e : Error) (db' : Db) → m db ≡ (err e, db') → SameTables db db'

SameTables-trans : (a b c : Db) → SameTables a b → SameTables b c → SameTables a c
SameTables-trans a b c h k = record {
  clients = k.clients ∙ h.clients;
  codes = k.codes ∙ h.codes;
  access_tokens = k.access_tokens ∙ h.access_tokens;
  refresh_tokens = k.refresh_tokens ∙ h.refresh_tokens;
}

pub same : (db : Db) → SameTables db db
same db = record { clients = refl; codes = refl; access_tokens = refl; refresh_tokens = refl }

atomic_after :
    {A B : Type 0} (db₀ : Db) (r : Result A × Db) (f : A → Prog B) (e : Error) (db' : Db)
    → SameTables db₀ r.1
    → ((a : A) → IsAtomic (f a))
    → after r f ≡ (err e, db')
    → SameTables db₀ db'
atomic_after db₀ (ok a, db) f e db' h k q = SameTables-trans db₀ db db' h ((k a).at db e db' q)
atomic_after {B = B} db₀ (err x, db) f e db' h k q =
    subst (SameTables db₀) (ap (λ (r : Result B × Db). r.1) q) h

pub IsAtomic-bind :
    {A B : Type 0} (m : Prog A) (f : A → Prog B)
    → ((db : Db) → Keeps (SameTables db) m)
    → ((a : A) → IsAtomic (f a))
    → IsAtomic (m >>= f)
IsAtomic-bind m f km kf = record {
  at = λ db e db' q. atomic_after db (m db) f e db' ((km db).at db (same db)) kf q;
}

last_state :
    {A B : Type 0} (db : Db) (r : Result A × Db) (g : A → B) (e : Error) (db' : Db)
    → ((x : Error) (s : Db) → r ≡ (err x, s) → SameTables db s)
    → after r (λ a. pure (g a)) ≡ (err e, db')
    → SameTables db db'
last_state db (ok a, s) g e db' k q = absurd (ground arith)
last_state {B = B} db (err x, s) g e db' k q =
    subst (SameTables db) (ap (λ (r : Result B × Db). r.1) q) (k x s refl)

-- A last write, after which the run can only return.
pub IsAtomic-last :
    {A B : Type 0} (m : Prog A) (g : A → B) → IsAtomic m → IsAtomic (m >>= λ a. pure (g a))
IsAtomic-last m g k = record { at = λ db e db' q. last_state db (m db) g e db' (k.at db) q }

-- What a run from a state with `P` returns satisfies `Q`.
pub record Gives {A : Type 0} (P : Db → Type 0) (m : Prog A) (Q : A → Type 0) : Type 0 where
  pub at : (db : Db) → P db → (a : A) (db' : Db) → m db ≡ (ok a, db') → Q a

given_cases :
    {A : Type 0} (Q : A → Type 0) (o : Option A) (e : Error) (db db' : Db) (a : A)
    → ((x : A) → o ≡ some x → Q x)
    → ◌≡◌ {A = Result A × Db} (given o e, db) (ok a, db')
    → Q a
given_cases Q none e db db' a k h = absurd (ground arith)
given_cases Q (some x) e db db' a k h = subst Q (ground arith) (k x refl)

require_cases :
    (b : Bool) (e : Error) (db db' : Db) (u : Unit {0}) → require b e db ≡ (ok u, db') → b ≡ true
require_cases true e db db' u h = refl
require_cases false e db db' u h = absurd (ground arith)

failing_cases :
    {A : Type 0} (Q : A → Type 0) (e : Error) (r : Result A × Db) (a : A) (db' : Db)
    → ((x : A) (s : Db) → r ≡ (ok x, s) → Q x)
    → or_else e r ≡ (ok a, db')
    → Q a
failing_cases Q e (ok x, db) a db' k h = subst Q (ground arith) (k x db refl)
failing_cases Q e (err y, db) a db' k h = absurd (ground arith)

using_state :
    {A B : Type 0} (P : Db → Type 0) (Q : A → Type 0) (r : Result A × Db) (f : A → Prog B)
    → P r.1
    → ((a : A) (s : Db) → r ≡ (ok a, s) → Q a)
    → ((a : A) → Q a → Keeps P (f a))
    → P (after r f).1
using_state P Q (ok a, db) f h g k = (k a (g a db refl)).at db h
using_state P Q (err e, db) f h g k = h

module _ (P : Db → Type 0) where
  pub Gives-given :
      {A : Type 0} (o : Option A) (e : Error) → Gives P (lift (given o e)) (λ a. o ≡ some a)
  Gives-given o e = record {
    at = λ db h a db' q. given_cases (λ x. o ≡ some x) o e db db' a (λ x z. z) q;
  }

  pub Gives-require : (b : Bool) (e : Error) → Gives P (require b e) (λ _. b ≡ true)
  Gives-require b e = record { at = λ db h u db' q. require_cases b e db db' u q }

  pub Gives-failing_as :
      {A : Type 0} (e : Error) (m : Prog A) (Q : A → Type 0)
      → Gives P m Q
      → Gives P (failing_as e m) Q
  Gives-failing_as e m Q g = record {
    at = λ db h a db' q. failing_cases Q e (m db) a db' (g.at db h) q;
  }

  -- The rest of a run may use what its first step returned.
  pub Keeps-using :
      {A B : Type 0} (m : Prog A) (f : A → Prog B) (Q : A → Type 0)
      → Keeps P m
      → Gives P m Q
      → ((a : A) → Q a → Keeps P (f a))
      → Keeps P (m >>= f)
  Keeps-using m f Q km g kf = record {
    at = λ db h. using_state P Q (m db) f (km.at db h) (g.at db h) kf;
  }

  -- A check, and what the rest may rely on after it.
  pub Keeps-checked :
      {B : Type 0} (b : Bool) (e : Error) (f : Unit {0} → Prog B)
      → (b ≡ true → Keeps P (f tt))
      → Keeps P (require b e >>= f)
  Keeps-checked b e f k =
      Keeps-using (require b e) f (λ _. b ≡ true) (Keeps-require b e) (Gives-require b e) (λ _. k)
