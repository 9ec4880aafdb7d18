-- ===== src/StackGrowth/Effects.antt =====
-- What joining and cutting does to the chunks of a stack (`maybe_growstack`,
-- runtime/gc/garbage-collection.c).
use rtmlton.Prelude.{
  ◌≡◌, ◌≢◌, inl, inr, refl, List, [], ◌∷◌, ◌++◌, ◌∈◌, ◌∉◌, has, has-append, Distinct, Bool-cases,
  arith,
}
use rtmlton.Chunk.{Address, Memory, Chunk}
use rtmlton.Allocate.Link.{Leads}
use rtmlton.StackGrowth.{joined, trimmed}

-- Only the links of a chunk have changed.
abbrev pub IsRelinked : Chunk → Chunk → Type 0
IsRelinked b b' = b' ≡ record b { next_chunk = b'.next_chunk; prev_chunk = b'.prev_chunk }

pub not_null-append : (xs ys : List Address) → 0 ∉ xs → 0 ∉ ys → 0 ∉ xs ++ ys
not_null-append xs ys h k = ground (arith, has-append 0 xs ys, h, k)

pub list_not_null :
    (m : Memory) (p : Address) (xs ys : List Address)
    → ((a : Address) → a ∈ xs ++ ys → a ≢ 0)
    → 0 ∉ xs
list_not_null m p xs ys h = elim (Bool-cases (has 0 xs)) [
  | inl i ↦ absurd (h 0 (ground (arith, has-append 0 xs ys, i)) refl)
  | inr o ↦ o
]

pub Distinct-shorter :
    (xs : List Address) (k : Address) (ys : List Address)
    → Distinct (xs ++ k ∷ ys)
    → Distinct (xs ++ k ∷ [])
Distinct-shorter [] k ys h = (refl, tt)
Distinct-shorter (x ∷ xs) k ys h = (
  ground (arith, h.0, has-append x xs (k ∷ ys), has-append x xs (k ∷ [])),
  Distinct-shorter xs k ys h.1,
)

pub front_not_null :
    (xs : List Address) (k : Address) (ys : List Address) → 0 ∉ xs ++ k ∷ ys → 0 ∉ xs ++ k ∷ []
front_not_null xs k ys h = ground (arith, h, has-append 0 xs (k ∷ ys), has-append 0 xs (k ∷ []))

pub joined-IsRelinked : (m : Memory) (c d a : Address) → IsRelinked (m a) ((joined c d m) a)
joined-IsRelinked m c d a = ground arith

pub trimmed-IsRelinked : (m : Memory) (c a : Address) → IsRelinked (m a) ((trimmed c m) a)
trimmed-IsRelinked m c a = ground arith

pub joined-next_new :
    (m : Memory) (c d a : Address) → a ≢ c → ((joined c d m) a).next_chunk ≡ (m a).next_chunk
joined-next_new m c d a ne = ground (arith, ne)

pub joined-others : (m : Memory) (c d a : Address) → a ≢ c → a ≢ d → (joined c d m) a ≡ m a
joined-others m c d a nc nd = ground (arith, nc, nd)

pub trimmed-others :
    (m : Memory) (c a : Address) → a ≢ c → a ≢ (m c).next_chunk → (trimmed c m) a ≡ m a
trimmed-others m c a nc nd = ground (arith, nc, nd)

pub back_out : (a : Address) (xs ys : List Address) → a ∉ xs ++ ys → a ∉ ys
back_out a xs ys h = ground (arith, has-append a xs ys, h)

pub cut_in :
    (kept : List Address) (k d : Address) (rest : List Address)
    → (k ∈ kept ++ k ∷ d ∷ rest) × (d ∈ kept ++ k ∷ d ∷ rest)
cut_in kept k d rest = (
  ground (arith, has-append k kept (k ∷ d ∷ rest)),
  ground (arith, has-append d kept (k ∷ d ∷ rest)),
)

pub cut_next :
    (m : Memory) (k d p : Address) (kept rest : List Address)
    → Leads m p (kept ++ k ∷ d ∷ rest) 0
    → (m k).next_chunk ≡ d
cut_next m k d p [] rest h = h.1.0
cut_next m k d p (x ∷ xs) rest h = cut_next m k d (m x).next_chunk xs rest h.1
