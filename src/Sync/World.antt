-- ===== src/Sync/World.antt =====
-- What a synchronisation reads and writes. Calls are numbered: the call with a number fails where
-- `down` says so, and a clock, an ID, a connector or a pipeline answers by the number of calls made
-- before; those of the ledger fail apart from the others. The search engine, the vector index and the observers are other systems, of which the world
-- keeps the requests that were sent. `outcomes` are the lines that the orchestrator's logger gets for
-- changes: the external ID, and whether it was processed.
use sercha_core.Base.{ℕ, suc, String, Bool, true, false, Option, List, ◌∷◌, Table, Result, Error}
use sercha_core.Sync.Domain.{
  SyncStats, SyncState, SyncStatus, SyncError, Document, Change, Source, Settings,
}
use sercha_core.Sync.Ledger.{Ledger, RetryBackoff}
use sercha_core.Sync.Documents.{Documents}

pub data Request : Type 0 where
  clear_source : String → Request
  delete_chunks delete_embeddings : List String → Request
  observe_ingested observe_deleted : Document → Request

pub record SyncEvent : Type 0 where
  pub source_id : String
  pub source_name : String
  pub status : SyncStatus
  pub stats : SyncStats
  pub error : SyncError

pub record World : Type 0 where
  pub calls : ℕ
  pub documents : Documents
  pub failed : Ledger
  pub states : Table SyncState
  pub events : List SyncEvent
  pub requests : List Request
  pub outcomes : List (String × Bool)
  pub processed : List String
  pub stats : SyncStats

pub record Connector : Type 0 where
  pub test_connection : ℕ → Result (Unit {0})
  pub fetch_changes : ℕ → String → Result (List Change × String)
  pub fetch_document : ℕ → String → Result (Option Document × String)
  pub reconciliation_scopes : List String
  pub inventory : ℕ → String → Result (List String)

pub record Env : Type 0 where
  pub down : ℕ → Bool
  pub ledger_down : ℕ → Bool
  pub text : Error → String
  pub clock : ℕ → ℕ
  pub new_id : ℕ → String
  pub settings : ℕ → Result Settings
  pub get_source : ℕ → String → Result Source
  pub list_sources : ℕ → Result (List Source)
  pub lock : ℕ → Result Bool
  pub resolve_containers : ℕ → Source → Result (Option (List String))
  pub connect : ℕ → String → Result Connector
  pub normalise : String → String → String
  pub run_pipeline : ℕ → Document → String → Result ℕ
  pub is_cancelled : ℕ → Bool

-- The orchestrator's optional parts, and its limits.
pub record Orchestrator : Type 0 where
  pub has_lock : Bool
  pub has_engine : Bool
  pub has_vectors : Bool
  pub has_ledger : Bool
  pub has_events : Bool
  pub has_resolver : String → Bool
  pub observes_ingest : Bool
  pub observes_delete : Bool
  pub backoff : RetryBackoff
  pub retry_batch : ℕ

-- A program over the world.
abbrev pub Prog : Type 0 → Type 0
Prog A = World → A × World

abbrev pub after {ℓ} : {A : Type ℓ} {B : Type 0} → A × World → (A → Prog B) → B × World
after (a, w) f = f a w

infixl 5 ◌>>=◌ ◌>>◌
abbrev pub ◌>>=◌ : {A B : Type 0} → Prog A → (A → Prog B) → Prog B
◌>>=◌ m f w = after (m w) f

abbrev pub ◌>>◌ : {B : Type 0} → Prog (Unit {0}) → Prog B → Prog B
m >> k = m >>= λ _. k

abbrev pub pure : {A : Type 0} → A → Prog A
pure a w = (a, w)

abbrev pub when : Bool → Prog (Unit {0}) → Prog (Unit {0})
when true m = m
when false m = pure tt

-- The number of this call.
abbrev pub call : Prog ℕ
call w = (w.calls, record w { calls = suc w.calls })

abbrev pub send : Request → Prog (Unit {0})
send r w = (tt, record w { calls = suc w.calls; requests = r ∷ w.requests })

abbrev pub log : String → Bool → Prog (Unit {0})
log external_id done w = (tt, record w { outcomes = (external_id, done) ∷ w.outcomes })

abbrev pub count : (SyncStats → SyncStats) → Prog (Unit {0})
count f w = (tt, record w { stats = f w.stats })

abbrev pub one_error : SyncStats → SyncStats
one_error s = record s { errors = suc s.errors }

abbrev pub mark : String → Prog (Unit {0})
mark external_id w = (tt, record w { processed = external_id ∷ w.processed })

-- A statement over the documents, and one over the ledger.
abbrev pub on_documents {ℓ} : {A : Type ℓ} → World → A × Documents → A × World
on_documents w (a, db) = (a, record w { calls = suc w.calls; documents = db })

abbrev pub on_ledger {ℓ} : {A : Type ℓ} → World → A × Ledger → A × World
on_ledger w (a, rows) = (a, record w { calls = suc w.calls; failed = rows })
