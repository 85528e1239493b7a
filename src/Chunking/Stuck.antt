-- ===== src/Chunking/Stuck.antt =====
-- windowText of adapters/driven/pipeline/stages/indexing/chunker.go with a chunk size of 0, which
-- Create takes from the stage's parameters as it is.
use sercha_core.Base.{
  ℕ, zero, suc, ◌+◌, ◌-◌, ◌<◌, Bytes, false, ◌≡◌, refl, ap, none, [], length, take, drop, leb,
  lt→ltb, arith,
}
use sercha_core.Chunking.{Stage, slice, last_index, capped, window_end, advance, windows}

capped_here : (n offset size : ℕ) → size ≡ 0 → offset < n → capped n (offset + size) ≡ offset
capped_here n offset size h k = ground arith

empty-slice : (s : Bytes) (a : ℕ) → slice s a a ≡ []
empty-slice s a = ap (λ (n : ℕ). take n (drop a s)) (no_width a)
  where
    no_width : (n : ℕ) → n - n ≡ 0
    no_width n = omega arith

window_end_here :
    (stage : Stage) (body : Bytes) (offset : ℕ)
    → stage.chunk_size ≡ 0
    → offset < length body
    → window_end stage body offset ≡ offset
unfolding window_end last_index
window_end_here stage body offset none_wide inside =
    rw
      (
        capped_here (length body) offset stage.chunk_size none_wide inside,
        empty-slice body offset,
        lt→ltb offset (length body) inside,
      )
      refl

windows-stuck :
    (stage : Stage) (body heading : Bytes) (fuel offset position : ℕ)
    → stage.chunk_size ≡ 0
    → stage.trim [] ≡ []
    → offset < length body
    → windows stage body heading fuel offset position none ≡ none
unfolding windows advance
windows-stuck stage body heading zero offset position none_wide blank inside = refl
windows-stuck stage body heading (suc fuel) offset position none_wide blank inside =
    let ih = windows-stuck stage body heading fuel offset position none_wide blank inside in
    let further : leb (length body) offset ≡ false = ground arith in
    rw
      (
        lt→ltb offset (length body) inside,
        window_end_here stage body offset none_wide inside,
        empty-slice body offset,
        blank,
        further,
        ih,
      )
      refl

-- With a chunk size of 0 the loop over a body that is not blank never ends: no number of steps is
-- enough (trimming the empty string gives the empty string).
pub windows-endless :
    (stage : Stage) (body heading : Bytes) (fuel : ℕ)
    → stage.chunk_size ≡ 0
    → stage.trim [] ≡ []
    → 0 < length (stage.trim body)
    → windows stage (stage.trim body) heading fuel 0 0 none ≡ none
windows-endless stage body heading fuel none_wide blank inside =
    windows-stuck stage (stage.trim body) heading fuel 0 0 none_wide blank inside
