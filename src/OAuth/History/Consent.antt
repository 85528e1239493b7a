-- ===== src/OAuth/History/Consent.antt =====
-- No token without consent: each stored token goes back to an Authorize call of its user for its
-- client (core/services/oauth_server.go).
use sercha_core.Base.{
  String, ◌≡◌, refl, ◌⊎◌, inl, inr, some, List, [], ◌∷◌, ℕ, Bool, Table, Rows-Unit, All, lookup,
  lookup-Rows,
}
use mathlib.Core.Path.{subst}
use sercha_core.OAuth.Domain.{OAuthClient, OAuthAccessToken}
use sercha_core.OAuth.External.{Config}
use sercha_core.OAuth.Stores.{Db}
use sercha_core.OAuth.Stores.Rows.{RowPreds, Holds}
use sercha_core.OAuth.Registration.{new_client}
use sercha_core.OAuth.Authorization.{new_code}
use sercha_core.OAuth.Exchange.{new_access_token, new_refresh_token}
use sercha_core.OAuth.History.{Op, registers, authorizes, run}
use sercha_core.OAuth.History.Closure.{IsClosed}
use sercha_core.OAuth.History.Closure.Runs.{run-Holds}

-- The operation is a user's Authorize call for a client.
abbrev pub Consents : String → String → Op → Type 0
Consents user_id client_id (authorizes d user req) = (user ≡ user_id) × (req.client_id ≡ client_id)
Consents user_id client_id _ = ⊥

-- Some operation of the list is such a call.
abbrev pub Consented : List Op → String → String → Type 0
Consented [] user_id client_id = ⊥
Consented (op ∷ ops) user_id client_id =
    Consents user_id client_id op ⊎ Consented ops user_id client_id

abbrev pub consent_rows : List Op → RowPreds
consent_rows ops = record {
  on_client = λ k c. Unit;
  on_code = λ k c. Consented ops c.user_id c.client_id;
  on_access = λ k t. Consented ops t.user_id t.client_id;
  on_refresh = λ k t. Consented ops t.user_id t.client_id;
}

abbrev Fits : List Op → Op → Type 0
Fits ops (authorizes d user req) = Consented ops user req.client_id
Fits ops _ = Unit

consent_rows-IsClosed : (ops : List Op) → IsClosed (consent_rows ops) (Fits ops)
unfolding new_client new_code new_access_token new_refresh_token
consent_rows-IsClosed ops = record {
  stable = record {
    times = λ k c t u h. tt;
    mark = λ k c h. h;
    revoke_access_row = λ k t h. h;
    revoke_refresh_row = λ k t h. h;
    rotate_row = λ k new_id t h. h;
  };
  client = λ d req hash fits known. tt;
  code = λ d user_id req c code fits drawn known allowed. fits;
  access_of_code = λ cfg d req c fits known same. subst (Consented ops c.user_id) same known;
  access_of_refresh = λ d req t fits known same. subst (Consented ops t.user_id) same known;
  refresh = λ d req t id fits drawn known. known;
}

Fits-cons : (op o : Op) (ops : List Op) → Fits ops o → Fits (op ∷ ops) o
Fits-cons op (authorizes d user req) ops h = inr h
Fits-cons op (registers d req) ops h = tt
Fits-cons op _ ops h = tt

All-Fits-cons : (op : Op) (ops os : List Op) → All (Fits ops) os → All (Fits (op ∷ ops)) os
All-Fits-cons op ops [] h = tt
All-Fits-cons op ops (o ∷ os) h = (Fits-cons op o ops h.0, All-Fits-cons op ops os h.1)

Fits-self : (op : Op) (ops : List Op) → Fits (op ∷ ops) op
Fits-self (authorizes d user req) ops = inl (refl, refl)
Fits-self (registers d req) ops = tt
Fits-self _ ops = tt

All-Fits : (ops : List Op) → All (Fits ops) ops
All-Fits [] = tt
All-Fits (op ∷ ops) = (Fits-self op ops, All-Fits-cons op ops ops (All-Fits ops))

-- Registered clients, with no code and no token yet.
abbrev pub opening : Table OAuthClient → (ℕ → Bool) → Db
opening clients down = record {
  clients = clients;
  codes = [];
  access_tokens = [];
  refresh_tokens = [];
  calls = 0;
  down = down;
}

run-consent_rows :
    (cfg : Config) (ops : List Op) (clients : Table OAuthClient) (down : ℕ → Bool)
    → Holds (consent_rows ops) (run cfg ops (opening clients down))
run-consent_rows cfg ops clients down =
    run-Holds (consent_rows ops) (Fits ops) cfg (consent_rows-IsClosed ops) ops
      (opening clients down) (All-Fits ops)
      (record { clients = Rows-Unit clients; codes = tt; access = tt; refresh = tt })

-- From a state without codes and tokens, after any operations with any outcomes: if an access token
-- is stored, one of the operations is an Authorize call of its user for its client.
pub access_token-Consented :
    (cfg : Config) (ops : List Op) (clients : Table OAuthClient) (down : ℕ → Bool) (id : String)
    {t : OAuthAccessToken}
    → lookup id (run cfg ops (opening clients down)).access_tokens ≡ some t
    → Consented ops t.user_id t.client_id
access_token-Consented cfg ops clients down id e =
    lookup-Rows (consent_rows ops).on_access id (run cfg ops (opening clients down)).access_tokens
      (run-consent_rows cfg ops clients down).access e
