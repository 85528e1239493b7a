-- ===== src/Sync/Pages/Unlost.antt =====
-- No failed change is lost, core/services/sync.go: what the retries and the pages of a container mark
-- as processed was processed, or has a row in the ledger.
use sercha_core.Base.{
  ℕ, zero, suc, String, Bool, true, false, ◌||◌, ◌≡◌, ◌⊎◌, ◌∙◌, sym, ap, inl, inr, List, [], ◌∷◌,
  Result, ok, err, lookup, contains, str_eq, Bool-cases, arith,
}
use sercha_core.Sync.Domain.{Change, Source}
use sercha_core.Sync.Ledger.{find_row}
use sercha_core.Sync.World.{World, Env, Orchestrator, Connector, Prog}
use sercha_core.Sync.Changes.Books.{SameBooks}
use sercha_core.Sync.Pages.{
  unprocessed, mark_all, fan_out, process_page, turn, on_new, on_page, Outcome, fetch_pages,
}
use sercha_core.Sync.Pages.Accounts.{Accounted, HasLedger, fan_out-Accounted}
use sercha_core.Sync.Pages.Marks.{
  ids_of, fan_out_processed, cleaned-SameBooks, mark_all_processed, mark_all_books,
}

-- What is marked now was marked before, or is accounted for.
abbrev pub Unlost : List String → Source → String → World → Type 0
Unlost base source id w =
    contains w.processed id ≡ true → (contains base id ≡ true) ⊎ Accounted source id w

module _ (o : Orchestrator) (env : Env) (source : Source) (has : HasLedger o env source)
    (id : String) (named : str_eq id "" ≡ false) (base : List String) where
  pub Accounted-books :
      (w w' : World)
      → w'.failed ≡ w.failed
      → w'.outcomes ≡ w.outcomes
      → Accounted source id w
      → Accounted source id w'
  Accounted-books w w' f l (inl done) = inl (ap (lookup id) l ∙ done)
  Accounted-books w w' f l (inr row) = inr (λ (e : _). row (ap (find_row source.id id) (sym f) ∙ e))

  pub SameBooks-Unlost :
      (w w' : World) → SameBooks w w' → Unlost base source id w → Unlost base source id w'
  SameBooks-Unlost w w' s h m =
      elim (h (ap (λ (xs : List String). contains xs id) (sym s.processed) ∙ m)) [
        | inl old ↦ inl old
        | inr done ↦ inr (Accounted-books w w' s.failed s.outcomes done)
      ]

  marked_cases : (a b : Bool) → (a || b) ≡ true → (a ≡ true) ⊎ (b ≡ true)
  marked_cases a b h = ground arith

  fanned-Unlost :
      (cs : List Change) (w : World)
      → Unlost base source id w
      → Unlost base source id (fan_out o env source cs (mark_all cs w).1).1
  fanned-Unlost cs w h m =
      let w' = (mark_all cs w).1 in
      let marked =
        ap (λ (xs : List String). contains xs id) (sym (fan_out_processed o env source cs w'))
        ∙ m in
      elim (marked_cases (contains (ids_of cs) id) (contains w.processed id)
        (sym (mark_all_processed o env source cs w id) ∙ marked)) [
          | inl among ↦ inr (fan_out-Accounted o env source has id named cs w' (inl among))
          | inr before ↦ elim (h before) [
            | inl old ↦ inl old
            | inr done ↦
                let books = mark_all_books o env source cs w in
                inr (
                  fan_out-Accounted o env source has id named cs w'
                    (inr (Accounted-books w w' books.0 books.1 done)))
          ]
        ]

  process_page-Unlost :
      (cs : List Change) (w : World)
      → Unlost base source id w
      → Unlost base source id (process_page o env source cs w).1
  unfolding process_page
  process_page-Unlost cs w h =
      fanned-Unlost cs _ (SameBooks-Unlost w _ (cleaned-SameBooks o env source cs w) h)

  -- A program after which nothing is lost that was not lost before.
  abbrev pub Safe : Prog Outcome → Type 0
  Safe m = (w : World) → Unlost base source id w → Unlost base source id (m w).1

  turn-Safe :
      (rest : String → String → Prog Outcome) (cursor last next : String)
      → ((c l : String) → Safe (rest c l))
      → Safe (turn rest cursor last next)
  turn-Safe rest cursor last next later w h =
      elim (Bool-cases (str_eq next "" || str_eq next cursor)) [
        | inl over ↦ rw over h
        | inr more ↦ rw more (later next last w h)
      ]

  on_new-Safe :
      (rest : String → String → Prog Outcome) (cursor last next : String) (cs : List Change)
      → ((c l : String) → Safe (rest c l))
      → Safe (on_new o env source rest cursor last next cs)
  on_new-Safe rest cursor last next [] later w h = turn-Safe rest cursor last next later w h
  on_new-Safe rest cursor last next (c ∷ cs) later w h =
      turn-Safe rest cursor _ next later _ (process_page-Unlost (c ∷ cs) w h)

  on_page-Safe :
      (rest : String → String → Prog Outcome) (cursor last : String)
      (r : Result (List Change × String))
      → ((c l : String) → Safe (rest c l))
      → Safe (on_page o env source rest cursor last r)
  on_page-Safe rest cursor last (err e) later w h = h
  on_page-Safe rest cursor last (ok ([], next)) later w h = h
  on_page-Safe rest cursor last (ok (c ∷ cs, next)) later w h =
      on_new-Safe rest cursor last next (unprocessed w.processed (c ∷ cs)) later w h

  pub fetch_pages-Safe :
      (n : ℕ) (c : Connector) (cursor last : String)
      → Safe (fetch_pages o env source n c cursor last)
  unfolding fetch_pages
  fetch_pages-Safe zero c cursor last w h = h
  fetch_pages-Safe (suc n) c cursor last w h = elim (Bool-cases (env.is_cancelled w.calls)) [
    | inl over ↦ rw over h
    | inr more ↦ rw more (
        on_page-Safe (fetch_pages o env source n c) cursor last
          (c.fetch_changes (suc w.calls) cursor) (fetch_pages-Safe n c) _ h)
  ]
