-- ===== src/Chunk/Masks.antt =====
-- The header word behind the flags, and the masks of runtime/gc/um_constants.h.
use rtmlton.Prelude.{ℕ, ◌+◌, ◌-◌, ◌/◌, ◌%◌, ◌^◌, ◌≡◌, Bool, ◌==◌, if◌then◌else◌, arith}
use rtmlton.Chunk.Flags.{Header}

-- the position of a mask's one bit: 0x80000000, 0x01000000, 0x02000000, 0x04000000
abbrev pub um_chunk_in_use : ℕ
um_chunk_in_use = 31

abbrev pub um_chunk_mark_mask : ℕ
um_chunk_mark_mask = 24

abbrev pub um_chunk_grey_mask : ℕ
um_chunk_grey_mask = 25

abbrev pub um_chunk_red_mask : ℕ
um_chunk_red_mask = 26

-- `(w & mask) != 0`, `w |= mask`, `w &= ~mask`
unfoldable pub is_set : ℕ → ℕ → Bool
is_set w k = w / 2 ^ k % 2 == 1

unfoldable pub set_bit : ℕ → ℕ → ℕ
unfolding is_set
set_bit w k = if is_set w k then w else w + 2 ^ k

unfoldable pub clear_bit : ℕ → ℕ → ℕ
unfolding is_set
clear_bit w k = if is_set w k then w - 2 ^ k else w

-- the word of a header
abbrev flag : Bool → ℕ → ℕ
flag b k = if b then 2 ^ k else 0

abbrev pub word_of_header : Header → ℕ
word_of_header h =
    flag h.in_use um_chunk_in_use
    + flag h.mark um_chunk_mark_mask
    + flag h.grey um_chunk_grey_mask
    + flag h.red um_chunk_red_mask

pub is_set-word :
    (h : Header)
    → (is_set (word_of_header h) um_chunk_in_use ≡ h.in_use)
      × (is_set (word_of_header h) um_chunk_mark_mask ≡ h.mark)
      × (is_set (word_of_header h) um_chunk_grey_mask ≡ h.grey)
      × (is_set (word_of_header h) um_chunk_red_mask ≡ h.red)
unfolding is_set
is_set-word h = ground arith
