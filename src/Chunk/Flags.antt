-- ===== src/Chunk/Flags.antt =====
-- The flags of a chunk header (runtime/gc/um_constants.h).
use rtmlton.Prelude.{Bool, false}

-- UM_CHUNK_IN_USE, UM_CHUNK_MARK_MASK, UM_CHUNK_GREY_MASK, UM_CHUNK_RED_MASK
pub record Header : Type 0 where
  pub in_use : Bool
  pub mark : Bool
  pub grey : Bool
  pub red : Bool

-- UM_CHUNK_HEADER_CLEAN
abbrev pub clean : Header
clean = record { in_use = false; mark = false; grey = false; red = false }
