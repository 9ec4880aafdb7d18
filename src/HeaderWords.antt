-- ===== src/HeaderWords.antt =====
-- The updates of a chunk's flags as the code makes them, with masks on the header word
-- (runtime/gc/um_constants.h).
use rtmlton.Prelude.{◌≡◌, true, ◌||◌, if◌then◌else◌, arith}
use rtmlton.Chunk.{Header}
use rtmlton.Chunk.Masks.{
  is_set-word, is_set, set_bit, clear_bit, word_of_header, um_chunk_in_use, um_chunk_mark_mask,
  um_chunk_grey_mask, um_chunk_red_mask,
}
use rtmlton.Mark.{marked, shaded}
use rtmlton.Sweep.Fate.{faded}

-- `markChunk` in MARK_MODE
marked-word :
    (h : Header)
    → word_of_header (marked h)
      ≡ set_bit (clear_bit (word_of_header h) um_chunk_red_mask) um_chunk_mark_mask
unfolding is_set set_bit clear_bit
marked-word h = ground arith

-- `markChunk` in GREY_MODE
shaded-word :
    (h : Header)
    → word_of_header (shaded h) ≡ (
        if is_set (word_of_header h) um_chunk_grey_mask
          || is_set (word_of_header h) um_chunk_mark_mask
        then word_of_header h
        else set_bit (clear_bit (word_of_header h) um_chunk_red_mask) um_chunk_grey_mask)
unfolding is_set set_bit clear_bit
shaded-word h = ground arith

-- `sweep`, for a chunk in use that is not red and marked or grey
faded-word :
    (h : Header)
    → word_of_header (faded h) ≡ (
        if is_set (word_of_header h) um_chunk_mark_mask
        then clear_bit (word_of_header h) um_chunk_mark_mask
        else clear_bit (word_of_header h) um_chunk_grey_mask)
unfolding is_set set_bit clear_bit
faded-word h = ground arith

used-word :
    (h : Header)
    → word_of_header (record h { in_use = true }) ≡ set_bit (word_of_header h) um_chunk_in_use
unfolding is_set set_bit
used-word h = ground arith

-- The word of a chunk header has the bits of its flags, and the updates of the flags are the masks
-- of the code: marking clears red and sets the mark, shading does so for grey where neither colour
-- is set, the sweep clears the mark or else grey, and allocation sets the bit of a chunk in use.
pub word_of_header-updates :
    (h : Header)
    → (is_set (word_of_header h) um_chunk_in_use ≡ h.in_use)
      × (is_set (word_of_header h) um_chunk_mark_mask ≡ h.mark)
      × (is_set (word_of_header h) um_chunk_grey_mask ≡ h.grey)
      × (is_set (word_of_header h) um_chunk_red_mask ≡ h.red)
      × (word_of_header (marked h)
          ≡ set_bit (clear_bit (word_of_header h) um_chunk_red_mask) um_chunk_mark_mask)
      × (word_of_header (shaded h) ≡ (
          if is_set (word_of_header h) um_chunk_grey_mask
            || is_set (word_of_header h) um_chunk_mark_mask
          then word_of_header h
          else set_bit (clear_bit (word_of_header h) um_chunk_red_mask) um_chunk_grey_mask))
      × (word_of_header (faded h) ≡ (
          if is_set (word_of_header h) um_chunk_mark_mask
          then clear_bit (word_of_header h) um_chunk_mark_mask
          else clear_bit (word_of_header h) um_chunk_grey_mask))
      × (word_of_header (record h { in_use = true }) ≡ set_bit (word_of_header h) um_chunk_in_use)
word_of_header-updates h =
    let (u, m, g, r) = is_set-word h in
    (u, m, g, r, marked-word h, shaded-word h, faded-word h, used-word h)
