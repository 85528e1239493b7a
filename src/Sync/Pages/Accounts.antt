-- ===== src/Sync/Pages/Accounts.antt =====
-- No failed change is lost: what the retries and the pages of syncContainer in core/services/sync.go
-- mark as processed was processed, or has a row in the ledger.
use sercha_core.Base.{
  ℕ, suc, String, Bool, true, false, ◌≡◌, ◌≢◌, ◌⊎◌, ◌∙◌, sym, ap, map, inl, inr, none, some, List,
  [], ◌∷◌, Result, ok, err, Error, lookup, contains, str_eq, eq_iff, Bool-cases, arith,
}
use sercha_core.Sync.Domain.{Change, Source}
use sercha_core.Sync.Ledger.{find_row, mark_succeeded, is_valid_backoff}
use sercha_core.Sync.Ledger.Rows.{find_row-delete, find_row-record}
use sercha_core.Sync.World.{World, Env, Orchestrator, one_error}
use sercha_core.Sync.Changes.{process_change}
use sercha_core.Sync.Changes.Books.{SameBooks, process_change-SameBooks}
use sercha_core.Sync.Containers.{record_document_failure, clear_document_failure}
use sercha_core.Sync.Pages.{settle, process_one, fan_out}

-- The logger says last that the change with this ID was processed, or the ledger has a row for it.
abbrev pub Accounted : Source → String → World → Type 0
Accounted source id w = (lookup id w.outcomes ≡ some true) ⊎ (find_row source.id id w.failed ≢ none)

-- There is a ledger, and its statements succeed.
pub record HasLedger (o : Orchestrator) (env : Env) (source : Source) : Type 0 where
  pub wired : o.has_ledger ≡ true
  pub valid : is_valid_backoff o.backoff ≡ true
  pub named : str_eq source.id "" ≡ false
  pub is_up : (k : ℕ) → env.ledger_down k ≡ false

module _ (o : Orchestrator) (env : Env) (source : Source) (has : HasLedger o env source)
    (id : String) (named : str_eq id "" ≡ false) where
  abbrev pub HasRow : World → Type 0
  HasRow w = find_row source.id id w.failed ≢ none

  pub recorded_row :
      (j : String) (e : Error) (w : World)
      → (str_eq j id ≡ true) ⊎ HasRow w
      → HasRow (record_document_failure o env source j e w).1
  unfolding record_document_failure
  recorded_row j e w h = ground (
    arith,
    has.wired,
    has.named,
    has.is_up w.calls,
    has.is_up (suc w.calls),
    eq_iff j id,
    find_row-record (env.clock w.calls) source.id id j (env.text e) o.backoff w.failed has.valid
        has.named,
    eq_iff j "",
    eq_iff id "",
  )

  pub cleared_row :
      (j : String) (w : World)
      → str_eq j id ≡ false
      → HasRow w
      → HasRow (clear_document_failure o env source j w).1
  unfolding clear_document_failure mark_succeeded
  cleared_row j w other h = ground (arith, find_row-delete source.id id source.id j w.failed)

  pub recorded_books :
      (j : String) (e : Error) (w : World)
      → ((record_document_failure o env source j e w).1.outcomes ≡ w.outcomes)
        × ((record_document_failure o env source j e w).1.processed ≡ w.processed)
  unfolding record_document_failure
  recorded_books j e w = ground arith

  pub cleared_books :
      (j : String) (w : World)
      → ((clear_document_failure o env source j w).1.outcomes ≡ w.outcomes)
        × ((clear_document_failure o env source j w).1.processed ≡ w.processed)
  unfolding clear_document_failure
  cleared_books j w = ground arith

  abbrev pub logged : String → Bool → World → World
  logged j done w = record w { outcomes = (j, done) ∷ w.outcomes }

  pub last_line :
      (j : String) (done : Bool) (w : World)
      → str_eq j id ≡ true
      → lookup id (logged j done w).outcomes ≡ some done
  unfolding lookup
  last_line j done w same = rw same

  pub earlier_line :
      (j : String) (done : Bool) (w : World)
      → str_eq j id ≡ false
      → lookup id (logged j done w).outcomes ≡ lookup id w.outcomes
  unfolding lookup
  earlier_line j done w other = rw other

  pub cleared-Accounted :
      (j : String) (w : World)
      → (lookup id w.outcomes ≡ some true) ⊎ ((str_eq j id ≡ false) × HasRow w)
      → Accounted source id (clear_document_failure o env source j w).1
  cleared-Accounted j w (inl done) = inl (ap (lookup id) (cleared_books j w).0 ∙ done)
  cleared-Accounted j w (inr (other, row)) = inr (cleared_row j w other row)

  pub recorded-Accounted :
      (j : String) (e : Error) (w : World)
      → (str_eq j id ≡ true) ⊎ Accounted source id w
      → Accounted source id (record_document_failure o env source j e w).1
  recorded-Accounted j e w (inl same) = inr (recorded_row j e w (inl same))
  recorded-Accounted j e w (inr (inl done)) = inl (ap (lookup id) (recorded_books j e w).0 ∙ done)
  recorded-Accounted j e w (inr (inr row)) = inr (recorded_row j e w (inr row))

  -- Logging another document's change keeps a document accounted.
  pub logged-Accounted :
      (j : String) (done : Bool) (w : World)
      → str_eq j id ≡ false
      → Accounted source id w
      → Accounted source id (logged j done w)
  logged-Accounted j done w other (inl l) = inl (earlier_line j done w other ∙ l)
  logged-Accounted j done w other (inr row) = inr row

  settle-Accounted :
      (j : String) (r : Result (Unit {0})) (w : World)
      → (str_eq j id ≡ true) ⊎ Accounted source id w
      → Accounted source id (settle o env source j r w).1
  settle-Accounted j (ok _) w h = elim (Bool-cases (str_eq j id)) [
    | inl same ↦ cleared-Accounted j (logged j true w) (inl (last_line j true w same))
    | inr other ↦ elim h [
      | inl same ↦ absurd (ground arith)
      | inr (inl done) ↦
          cleared-Accounted j (logged j true w) (inl (earlier_line j true w other ∙ done))
      | inr (inr row) ↦ cleared-Accounted j (logged j true w) (inr (other, row))
    ]
  ]
  settle-Accounted j (err e) w h =
      let w' : World = record (logged j false w) { stats = one_error w.stats } in
      elim (Bool-cases (str_eq j id)) [
        | inl same ↦ recorded-Accounted j e w' (inl same)
        | inr other ↦ elim h [
          | inl same ↦ absurd (ground arith)
          | inr before ↦ recorded-Accounted j e w' (inr (logged-Accounted j false w other before))
        ]
      ]

  pub SameBooks-Accounted :
      {w w' : World} → SameBooks w w' → Accounted source id w → Accounted source id w'
  SameBooks-Accounted s (inl done) = inl (ap (lookup id) s.outcomes ∙ done)
  SameBooks-Accounted s (inr row) =
      inr (λ (e : _). row (ap (find_row source.id id) (sym s.failed) ∙ e))

  process_one-Accounted :
      (c : Change) (w : World)
      → (str_eq c.external_id id ≡ true) ⊎ Accounted source id w
      → Accounted source id (process_one o env source c w).1
  unfolding process_one
  process_one-Accounted c w (inl same) =
      let p = process_change o env source c w in settle-Accounted c.external_id p.0 p.1 (inl same)
  process_one-Accounted c w (inr before) =
      let p = process_change o env source c w in
      settle-Accounted c.external_id p.0 p.1
        (inr (SameBooks-Accounted (process_change-SameBooks o env source c w) before))

  -- The pool accounts for every change of its list.
  pub fan_out-Accounted :
      (cs : List Change) (w : World)
      → (contains (map (λ (c : Change). c.external_id) cs) id ≡ true) ⊎ Accounted source id w
      → Accounted source id (fan_out o env source cs w).1
  unfolding fan_out contains
  fan_out-Accounted [] w (inl h) = cc
  fan_out-Accounted [] w (inr before) = before
  fan_out-Accounted (c ∷ cs) w h = fan_out-Accounted cs (process_one o env source c w).1 (elim h [
    | inl among ↦ elim (Bool-cases (str_eq c.external_id id)) [
      | inl same ↦ inr (process_one-Accounted c w (inl same))
      | inr other ↦ inl (ground arith)
    ]
    | inr before ↦ inr (process_one-Accounted c w (inr before))
  ])
