-- ===== src/Chunking.antt =====
-- windowText of adapters/driven/pipeline/stages/indexing/chunker.go: the text of a section cut into
-- windows. A Go string is the list of its bytes. strings.TrimSpace and the test for chunks that are no
-- text are any functions here. A chunk's random ID and its two document IDs, which are the caller's,
-- are left out.
pub mod Windows
pub mod Stuck
mod Tests
use sercha_core.Base.{
  Bytes, head_is, ℕ, zero, suc, ◌+◌, ◌-◌, Bool, true, false, not, ◌&&◌, Option, none, some, List,
  [], ◌∷◌, ◌++◌, length, take, drop, ltb, leb, ◌==◌, if◌then◌else◌,
}

abbrev pub space : ℕ
space = 0x20

abbrev pub newline : ℕ
newline = 0x0a

pub record Chunk : Type 0 where
  pub content : Bytes
  pub position : ℕ
  pub start_offset : ℕ
  pub end_offset : ℕ

-- What a stage is set up with: chunk_size, chunk_overlap, and the two text functions.
pub record Stage : Type 0 where
  pub chunk_size : ℕ
  pub chunk_overlap : ℕ
  pub trim : Bytes → Bytes
  pub is_non_text : Bytes → Bool

-- s[a:b]
abbrev pub slice : Bytes → ℕ → ℕ → Bytes
slice s a b = take (b - a) (drop a s)

-- strings.LastIndex of one byte, among the first n
unfoldable pub last_index : ℕ → Bytes → ℕ → Option ℕ
last_index zero s b = none
last_index (suc n) s b =
    let earlier = last_index n s b in if head_is (drop n s) b then some n else earlier

-- `if lastSpace > 0 { end = offset + lastSpace }`
abbrev pub break_at : ℕ → ℕ → Option ℕ → ℕ
break_at offset end none = end
break_at offset end (some n) = if ltb 0 n then offset + n else end

abbrev pub capped : ℕ → ℕ → ℕ
capped limit end = if ltb limit end then limit else end

unfoldable pub window_end : Stage → Bytes → ℕ → ℕ
window_end stage body offset =
    let end = capped (length body) (offset + stage.chunk_size) in
    let part = slice body offset end in
    if ltb end (length body) then break_at offset end (last_index (length part) part space) else end

-- The start of the next window, given the start of the last chunk that was kept.
unfoldable pub advance : Stage → ℕ → ℕ → Option ℕ → ℕ
advance stage offset end none = end
advance stage offset end (some last_start) =
    let back = end - stage.chunk_overlap in
    if leb back offset then end else if leb back last_start then end else back

abbrev pub with_heading : Bytes → Bytes → Bytes
with_heading [] text = text
with_heading (x ∷ heading) text = (x ∷ heading) ++ (newline ∷ newline ∷ text)

-- The window's text is kept as a chunk.
abbrev pub is_kept : Stage → Bytes → Bool
is_kept stage text = ltb 0 (length text) && not (stage.is_non_text text)

abbrev pub add_if {ℓ} : {A : Type ℓ} → Bool → A → Option (List A) → Option (List A)
add_if b x none = none
add_if b x (some xs) = some (if b then x ∷ xs else xs)

-- The loop from an offset on, for a body that is trimmed; `none` where the fuel does not last.
unfoldable pub windows : Stage → Bytes → Bytes → ℕ → ℕ → ℕ → Option ℕ → Option (List Chunk)
windows stage body heading zero offset position last_start = none
windows stage body heading (suc fuel) offset position last_start =
    let end = window_end stage body offset in
    let text = stage.trim (slice body offset end) in
    let kept = is_kept stage text in
    let last = if kept then some offset else last_start in
    let next =
      windows stage body heading fuel (advance stage offset end last)
        (if kept then suc position else position) last in
    if ltb offset (length body)
    then add_if kept
        (record {
          content = with_heading heading text;
          position = position;
          start_offset = offset;
          end_offset = end;
        })
        (if leb (length body) end then some [] else next)
    else some []

unfoldable pub window_text : Stage → Bytes → Bytes → Option (List Chunk)
window_text stage body heading =
    let trimmed = stage.trim body in windows stage trimmed heading (suc (length trimmed)) 0 0 none
