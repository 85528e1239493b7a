-- ===== src/Chunking/Tests.antt =====
-- Texts at which the theorems about windowText (adapters/driven/pipeline/stages/indexing/chunker.go)
-- apply.
use sercha_core.Base.{Bytes, false, ◌≡◌, refl, none, some, [], ◌∷◌, arith}
use sercha_core.Chunking.{Stage, space, last_index, window_end, advance, windows, window_text}
use sercha_core.Chunking.Windows.{Cut, window_text-Cut}
use sercha_core.Chunking.Stuck.{windows-endless}

abbrev small : Stage
small = record { chunk_size = 4; chunk_overlap = 1; trim = λ s. s; is_non_text = λ s. false }

-- "ab cdef"
abbrev words : Bytes
words = 97 ∷ 98 ∷ space ∷ 99 ∷ 100 ∷ 101 ∷ 102 ∷ []

-- The first window ends at the space.
words_cut :
    window_text small words []
    ≡ some (
        record { content = 97 ∷ 98 ∷ []; position = 0; start_offset = 0; end_offset = 2 }
        ∷ record { content = 98 ∷ []; position = 1; start_offset = 1; end_offset = 2 }
        ∷ record {
          content = space ∷ 99 ∷ 100 ∷ 101 ∷ [];
          position = 2;
          start_offset = 2;
          end_offset = 6;
        }
        ∷ record { content = 101 ∷ 102 ∷ []; position = 3; start_offset = 5; end_offset = 7 }
        ∷ [])
unfolding window_text windows window_end advance last_index
words_cut = refl

window_text-Cut_example : Cut small words [] 0 (window_text small words [])
window_text-Cut_example = window_text-Cut small words [] (ground arith)

abbrev no_width : Stage
no_width = record { chunk_size = 0; chunk_overlap = 1; trim = λ s. s; is_non_text = λ s. false }

windows-endless_example : windows no_width words [] 1000 0 0 none ≡ none
windows-endless_example = windows-endless no_width words [] 1000 refl refl (ground arith)
