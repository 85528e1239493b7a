-- ===== src/Sync/Domain.antt =====
-- core/domain/sync.go, core/domain/document.go, and of core/domain/source.go and settings.go what a
-- synchronisation reads. A path is a Go string, the list of its bytes. Metadata and durations are
-- left out.
use sercha_core.Base.{
  Bytes, ℕ, String, Bool, ◌||◌, Option, none, List, ◌++◌, length, ltb, Error, Result,
}

pub data SyncStatus : Type 0 where
  idle running completed failed : SyncStatus

pub record SyncStats : Type 0 where
  pub documents_added : ℕ
  pub documents_updated : ℕ
  pub documents_deleted : ℕ
  pub chunks_indexed : ℕ
  pub errors : ℕ

abbrev pub no_stats : SyncStats
no_stats = record {
  documents_added = 0;
  documents_updated = 0;
  documents_deleted = 0;
  chunks_indexed = 0;
  errors = 0;
}

-- What the error text of a state or a result is printed from.
pub data SyncError : Type 0 where
  no_error sync_disabled cancelled : SyncError
  sync_failed : Error → SyncError
  all_containers_failed partial_failure : List (String × Error) → SyncError

pub record SyncState : Type 0 where
  pub source_id : String
  pub status : SyncStatus
  pub last_sync_at : Option ℕ
  pub next_sync_at : Option ℕ
  pub cursor : String
  pub stats : SyncStats
  pub error : SyncError
  pub started_at : Option ℕ
  pub completed_at : Option ℕ

abbrev pub idle_state : String → SyncState
idle_state source_id = record {
  source_id = source_id;
  status = idle;
  last_sync_at = none;
  next_sync_at = none;
  cursor = "";
  stats = no_stats;
  error = no_error;
  started_at = none;
  completed_at = none;
}

pub data ChangeType : Type 0 where
  added modified deleted : ChangeType
  unknown : String → ChangeType

pub record Document : Type 0 where
  pub id : String
  pub source_id : String
  pub external_id : String
  pub path : Bytes
  pub title : String
  pub mime_type : String
  pub created_at : ℕ
  pub updated_at : ℕ
  pub indexed_at : ℕ

-- A load answers by the number of the calls made before it.
pub record Change : Type 0 where
  pub type : ChangeType
  pub document : Option Document
  pub content : String
  pub load_content : Option (ℕ → Result String)
  pub external_id : String

pub record SyncResult : Type 0 where
  pub source_id : String
  pub success : Bool
  pub skipped : Bool
  pub stats : SyncStats
  pub error : SyncError
  pub cursor : String

pub record Source : Type 0 where
  pub id : String
  pub name : String
  pub provider_type : String
  pub enabled : Bool
  pub containers : List String

pub record SyncExclusionSettings : Type 0 where
  pub enabled_patterns : List Bytes
  pub disabled_patterns : List Bytes
  pub custom_patterns : List Bytes

unfoldable pub get_active_patterns : SyncExclusionSettings → List Bytes
get_active_patterns s = s.enabled_patterns ++ s.custom_patterns

unfoldable pub has_patterns : SyncExclusionSettings → Bool
has_patterns s = ltb 0 (length s.enabled_patterns) || ltb 0 (length s.custom_patterns)

pub record Settings : Type 0 where
  pub sync_enabled : Bool
  pub sync_exclusions : Option SyncExclusionSettings
