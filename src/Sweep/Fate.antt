-- ===== src/Sweep/Fate.antt =====
-- What the sweep does to a chunk, as a function of the chunk alone.
use rtmlton.Prelude.{
  length, ◌≤◌, Bool, true, false, not, ◌&&◌, ◌||◌, if◌then◌else◌, List, [], ◌∷◌, ◌≡◌, refl, arith,
  ◌∈◌,
}
use rtmlton.Chunk.{Address, ChunkType, um_normal_chunk, um_array_chunk, Chunk, Header, Memory}
use rtmlton.FreeList.Insert.{SameButLink}

-- normal and array chunks
abbrev pub is_swept : ChunkType → Bool
is_swept um_normal_chunk = true
is_swept um_array_chunk = true
is_swept _ = false

-- A red chunk has been allocated before its thread's stack was marked, and not been reached since.
abbrev pub is_garbage : Bool → Chunk → Bool
is_garbage collect_all c =
    is_swept c.chunk_type
    && c.header.in_use
    && (if c.header.red then collect_all else not c.header.mark && not c.header.grey)

-- A chunk that is marked or grey, and neither red nor free.
abbrev pub is_coloured : Chunk → Bool
is_coloured c =
    is_swept c.chunk_type && c.header.in_use && not c.header.red && (c.header.mark || c.header.grey)

-- the header that the sweep leaves: a mark is cleared, and grey where there is no mark
abbrev pub faded : Header → Header
faded h = if h.mark then record h { mark = false } else record h { grey = false }

abbrev pub survivor : Chunk → Chunk
survivor c = if is_coloured c then record c { header = faded c.header } else c

-- the chunks that are collected, in the order of the sweep
abbrev pub garbage : Bool → Memory → List Address → List Address
garbage ca m [] = []
garbage ca m (a ∷ cs) = if is_garbage ca (m a) then a ∷ garbage ca m cs else garbage ca m cs

pub mem-garbage :
    (ca : Bool) (m : Memory) (cs : List Address) (a : Address)
    → a ∈ garbage ca m cs
    → (a ∈ cs) × (is_garbage ca (m a) ≡ true)
mem-garbage ca m [] a i = absurd (cc i)
mem-garbage ca m (b ∷ cs) a i = ground (arith, mem-garbage ca m cs a)

-- The decision does not depend on the links of the free lists.
pub is_garbage-same :
    (ca : Bool) (c d : Chunk) → SameButLink c d → is_garbage ca d ≡ is_garbage ca c
is_garbage-same ca c d e = rw e

pub garbage-same :
    (ca : Bool) (m m' : Memory) (cs : List Address)
    → ((a : Address) → a ∈ cs → SameButLink (m a) (m' a))
    → garbage ca m' cs ≡ garbage ca m cs
garbage-same ca m m' [] same = refl
garbage-same ca m m' (a ∷ cs) same = ground (
  arith,
  garbage-same ca m m' cs (λ b i. same b (ground arith)),
  is_garbage-same ca (m a) (m' a) (same a (ground arith)),
)

pub length-garbage :
    (ca : Bool) (m : Memory) (cs : List Address) → length (garbage ca m cs) ≤ length cs
length-garbage ca m [] = omega arith
length-garbage ca m (a ∷ cs) = ground (arith, length-garbage ca m cs)
