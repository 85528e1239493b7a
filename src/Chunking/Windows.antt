-- ===== src/Chunking/Windows.antt =====
-- What the loop of windowText (adapters/driven/pipeline/stages/indexing/chunker.go) guarantees.
use sercha_core.Base.{
  head_is, Bytes, Bytes, ℕ, zero, suc, ◌+◌, ◌-◌, ◌≤◌, ◌<◌, Bool, true, false, ◌≡◌, ◌⊎◌, refl, ap,
  inl, inr, Option, none, some, List, [], ◌∷◌, All, length, length-take, drop, ltb, leb, Bool-cases,
  arith, if◌then◌else◌,
}
use sercha_core.Chunking.{
  Chunk, Stage, slice, space, last_index, break_at, capped, window_end, advance, with_heading,
  is_kept, add_if, windows, window_text,
}

last_index_lt : (n : ℕ) (s : Bytes) (b : ℕ) {m : ℕ} → last_index n s b ≡ some m → m < n
unfolding last_index
last_index_lt zero s b h = absurd (ground arith)
last_index_lt (suc n) s b {m} h = elim (Bool-cases (head_is (drop n s) b)) [
  | inl here ↦ ground arith
  | inr not_here ↦ omega (arith, last_index_lt n s b {m = m} (ground arith))
]

length-slice_le : (s : Bytes) (a b : ℕ) → length (slice s a b) ≤ b - a
length-slice_le s a b = omega (arith, length-take (b - a) (drop a s))

-- A window is not empty, is no longer than the chunk size, and ends within the body.
pub record IsWindow (stage : Stage) (body : Bytes) (offset end : ℕ) : Type 0 where
  pub nonempty : offset < end
  pub within : end ≤ length body
  pub bounded : end ≤ offset + stage.chunk_size

break-bounds :
    (offset end n : ℕ) (o : Option ℕ)
    → offset < end
    → n ≤ end - offset
    → ((m : ℕ) → o ≡ some m → m < n)
    → (offset < break_at offset end o) × (break_at offset end o ≤ end)
break-bounds offset end n none h k b = (h, omega arith)
break-bounds offset end n (some m) h k b = ground (arith, b m refl)

window_end-IsWindow :
    (stage : Stage) (body : Bytes) (offset : ℕ)
    → 0 < stage.chunk_size
    → offset < length body
    → IsWindow stage body offset (window_end stage body offset)
unfolding window_end
window_end-IsWindow stage body offset positive inside =
    let end = capped (length body) (offset + stage.chunk_size) in
    let part = slice body offset end in
    let found = last_index (length part) part space in
    let far : offset < end = ground arith in
    let near =
      break-bounds offset end (length part) found far (length-slice_le body offset end)
        (λ m e. last_index_lt (length part) part space e) in
    elim (Bool-cases (ltb end (length body))) [
      | inl broken ↦ rw broken (record {
        nonempty = near.0;
        within = ground (arith, near.1);
        bounded = ground (arith, near.1);
      })
      | inr whole ↦
          rw whole (record { nonempty = far; within = ground arith; bounded = ground arith })
    ]

advance_gt :
    (stage : Stage) (offset end : ℕ) (last : Option ℕ)
    → offset < end
    → offset < advance stage offset end last
unfolding advance
advance_gt stage offset end none h = h
advance_gt stage offset end (some s) h = ground arith

advance_le :
    (stage : Stage) (offset end : ℕ) (last : Option ℕ) → advance stage offset end last ≤ end
unfolding advance
advance_le stage offset end none = ground arith
advance_le stage offset end (some s) = ground arith

-- A chunk is a window whose trimmed text is kept, below the heading.
pub record IsChunk (stage : Stage) (body heading : Bytes) (c : Chunk) : Type 0 where
  pub window : IsWindow stage body c.start_offset c.end_offset
  pub kept : is_kept stage (stage.trim (slice body c.start_offset c.end_offset)) ≡ true
  pub text : c.content ≡ with_heading heading (stage.trim (slice body c.start_offset c.end_offset))

-- Some chunk of the list covers the index.
abbrev pub Covers : ℕ → List Chunk → Type 0
Covers i [] = ⊥
Covers i (c ∷ chunks) = ((c.start_offset ≤ i) × (i < c.end_offset)) ⊎ Covers i chunks

-- A window covers the index whose text is not kept: it is blank, or taken to be no text.
pub record Dropped (stage : Stage) (body : Bytes) (i : ℕ) : Type 0 where
  pub offset : ℕ
  pub end : ℕ
  pub window : IsWindow stage body offset end
  pub before : offset ≤ i
  pub behind : i < end
  pub dropped : is_kept stage (stage.trim (slice body offset end)) ≡ false

-- The loop has ended with chunks that are windows, and each index from the offset on is covered.
pub record Cut (stage : Stage) (body heading : Bytes) (offset : ℕ) (o : Option (List Chunk))
    : Type 0 where
  pub chunks : List Chunk
  pub returned : o ≡ some chunks
  pub sound : All (IsChunk stage body heading) chunks
  pub complete : (i : ℕ) → offset ≤ i → i < length body → Covers i chunks ⊎ Dropped stage body i

module _ (stage : Stage) (body heading : Bytes) where
  ended : (offset : ℕ) → length body ≤ offset → Cut stage body heading offset (some [])
  ended offset h = record {
    chunks = [];
    returned = refl;
    sound = tt;
    complete = λ i k l. absurd (ground arith);
  }

  add-Cut :
      (c : Chunk) (start : ℕ) (kept : Bool) (o : Option (List Chunk))
      → IsWindow stage body c.start_offset c.end_offset
      → is_kept stage (stage.trim (slice body c.start_offset c.end_offset)) ≡ kept
      → c.content ≡ with_heading heading (stage.trim (slice body c.start_offset c.end_offset))
      → start ≤ c.end_offset
      → Cut stage body heading start o
      → Cut stage body heading c.start_offset (add_if kept c o)
  add-Cut c start true o w k e h rest = record {
    chunks = c ∷ rest.chunks;
    returned = ap (add_if true c) rest.returned;
    sound = (record { window = w; kept = k; text = e }, rest.sound);
    complete = λ i after inside. elim (Bool-cases (ltb i c.end_offset)) [
      | inl here ↦ inl (inl (after, ground arith))
      | inr past ↦ elim (rest.complete i (ground arith) inside) [
        | inl covered ↦ inl (inr covered)
        | inr dropped ↦ inr dropped
      ]
    ];
  }
  add-Cut c start false o w k e h rest = record {
    chunks = rest.chunks;
    returned = ap (add_if false c) rest.returned;
    sound = rest.sound;
    complete = λ i after inside. elim (Bool-cases (ltb i c.end_offset)) [
      | inl here ↦ inr (record {
        offset = c.start_offset;
        end = c.end_offset;
        window = w;
        before = after;
        behind = ground arith;
        dropped = k;
      })
      | inr past ↦ rest.complete i (ground arith) inside
    ];
  }

  windows-Cut :
      (fuel offset position : ℕ) (last_start : Option ℕ)
      → 0 < stage.chunk_size
      → offset ≤ length body
      → length body < offset + fuel
      → Cut stage body heading offset (windows stage body heading fuel offset position last_start)
  unfolding windows
  windows-Cut zero offset position last_start positive inside enough = absurd (ground arith)
  windows-Cut (suc fuel) offset position last_start positive inside enough =
      elim (Bool-cases (ltb offset (length body))) [
        | inr over ↦ rw over (ended offset (ground arith))
        | inl more ↦
            let end = window_end stage body offset in
            let text = stage.trim (slice body offset end) in
            let kept = is_kept stage text in
            let last = if kept then some offset else last_start in
            let w = window_end-IsWindow stage body offset positive (ground arith) in
            let start = advance stage offset end last in
            let c : Chunk = record {
              content = with_heading heading text;
              position = position;
              start_offset = offset;
              end_offset = end;
            } in
            let ih =
              windows-Cut fuel start (if kept then suc position else position) last positive
                (omega (arith, advance_le stage offset end last, w.within))
                (omega (arith, advance_gt stage offset end last w.nonempty, enough)) in
            elim (Bool-cases (leb (length body) end)) [
              | inl final ↦
                  rw (more, final)
                    (add-Cut c end kept (some []) w refl refl (ground arith)
                      (ended end (ground arith)))
              | inr further ↦
                  rw (more, further)
                    (add-Cut c start kept _ w refl refl (advance_le stage offset end last) ih)
            ]
      ]

-- With a chunk size of at least 1, the loop over a body ends; each chunk that it returns is a window
-- of the trimmed body, not empty and no longer than the chunk size, whose trimmed text stands below
-- the heading; and each byte of the trimmed body is covered by a chunk, or by a window that is blank
-- or taken to be no text.
pub window_text-Cut :
    (stage : Stage) (body heading : Bytes)
    → 0 < stage.chunk_size
    → Cut stage (stage.trim body) heading 0 (window_text stage body heading)
unfolding window_text
window_text-Cut stage body heading positive =
    let trimmed = stage.trim body in
    windows-Cut stage trimmed heading (suc (length trimmed)) 0 0 none positive (omega arith)
      (omega arith)
