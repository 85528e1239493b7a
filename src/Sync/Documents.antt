-- ===== src/Sync/Documents.antt =====
-- adapters/driven/postgres/document_store.go over the documents table of
-- migrations/0001_initial_schema.sql: the primary key is the ID, and no two rows of a source have one
-- external ID. A statement fails as a whole where its argument `down` says so.
pub mod Distinct
use sercha_core.Base.{
  ℕ, String, Bool, true, false, not, ◌&&◌, Option, none, some, Table, List, [], ◌∷◌, take, drop,
  lookup, exists_in, put, remove, leb, str_eq, Result, ok, err, not_found, internal, if◌then◌else◌,
}
use sercha_core.Sync.Domain.{Document}

abbrev pub Documents : Type 0
Documents = Table Document

abbrev pub is_external : String → String → Document → Bool
is_external source_id external_id d =
    str_eq d.source_id source_id && str_eq d.external_id external_id

unfoldable pub find_external : String → String → Documents → Option Document
find_external source_id external_id [] = none
find_external source_id external_id ((_, d) ∷ db) =
    if is_external source_id external_id d then some d else find_external source_id external_id db

abbrev pub found {ℓ} : {A : Type ℓ} → Option A → Result A
found none = err not_found
found (some a) = ok a

unfoldable pub get_by_external_id : Bool → String → String → Documents → Result Document
get_by_external_id down source_id external_id db =
    if down then err internal else found (find_external source_id external_id db)

-- ON CONFLICT (id) keeps the source and the creation time of the row.
abbrev pub stored : Document → Option Document → Document
stored d none = d
stored d (some old) = record d { source_id = old.source_id; created_at = old.created_at }

-- Whether another row has the external ID already.
abbrev pub is_taken : Document → Option Document → Bool
is_taken d none = false
is_taken d (some other) = not (str_eq other.id d.id)

unfoldable pub save_document : Bool → Document → Documents → Result (Unit {0}) × Documents
save_document down d db =
    let row = stored d (lookup d.id db) in
    if down
    then (err internal, db)
    else if is_taken row (find_external row.source_id row.external_id db)
    then (err internal, db)
    else (ok tt, put d.id row db)

unfoldable pub delete_document : Bool → String → Documents → Result (Unit {0}) × Documents
delete_document down id db =
    if down
    then (err internal, db)
    else if exists_in id db
    then (ok tt, remove id db)
    else (err not_found, db)

unfoldable pub external_ids : String → Documents → List String
external_ids source_id [] = []
external_ids source_id ((_, d) ∷ db) =
    let rest = external_ids source_id db in
    if str_eq d.source_id source_id then d.external_id ∷ rest else rest

unfoldable pub list_external_ids : Bool → String → Documents → Result (List String)
list_external_ids down source_id db = if down then err internal else ok (external_ids source_id db)

unfoldable pub insert_created : Document → List Document → List Document
insert_created d [] = d ∷ []
insert_created d (e ∷ ds) =
    let rest = insert_created d ds in
    if leb e.created_at d.created_at then d ∷ (e ∷ ds) else e ∷ rest

-- ORDER BY created_at DESC; of documents of one time the earlier row comes first
unfoldable pub of_source : String → Documents → List Document
of_source source_id [] = []
of_source source_id ((_, d) ∷ db) =
    let rest = of_source source_id db in
    if str_eq d.source_id source_id then insert_created d rest else rest

unfoldable pub get_by_source : Bool → String → ℕ → ℕ → Documents → Result (List Document)
get_by_source down source_id limit offset db =
    if down then err internal else ok (take limit (drop offset (of_source source_id db)))
