-- ===== src/Object/Header.antt =====
-- Object headers and the places of fields.
use native.Mathlib.Decide.{dec_le}
use rtmlton.Prelude.{
  ℕ, ◌+◌, ◌-◌, ◌*◌, ◌/◌, ◌%◌, ◌^◌, ◌<◌, ◌≤◌, ◌≡◌, ◌≢◌, refl, ◌⊎◌, inl, inr, ◌↔◌, some, List, arith,
  get_elem?,
}
use rtmlton.Prelude.Outcome.{ok, ◌>>=◌}
use rtmlton.Chunk.{Address}
use rtmlton.State.{GcState}
use rtmlton.Object.{
  ObjectType, build_header_from_type_index, split_header, inside, um_cpointer_offset,
  um_chunk_payload_size, normal_chunk,
}

build-index : (t : ℕ) → t < 2 ^ 19 → build_header_from_type_index t ≡ ok (1 + t * 2)
unfolding build_header_from_type_index
build-index t h = ground arith

header_fields : (t : ℕ) → t < 2 ^ 19 → ((1 + t * 2) % 2 ≡ 1) × ((1 + t * 2) / 2 % 2 ^ 19 ≡ t)
header_fields t h = omega arith

split-odd :
    (types : List ObjectType) (header t : ℕ) (ty : ObjectType)
    → header % 2 ≡ 1
    → header / 2 % 2 ^ 19 ≡ t
    → get_elem? types t ≡ some ty
    → split_header types header ≡ ok ty
unfolding split_header
split-odd types header t ty odd index e = rw (odd, index, e, split_header) refl

-- The header built for a type index reads back as the type with that index.
pub split-build :
    (types : List ObjectType) (t : ℕ) (ty : ObjectType)
    → t < 2 ^ 19
    → get_elem? types t ≡ some ty
    → (build_header_from_type_index t >>= split_header types) ≡ ok ty
split-build types t ty h e =
    rw (build-index t h)
      (split-odd types (1 + t * 2) t ty (header_fields t h).0 (header_fields t h).1 e)

-- For a field of an object in the heap that has a second chunk, `UM_CPointer_offset` returns its
-- place in the payload of the first chunk, if it ends there, with all its bytes inside. Else it
-- returns a place in the second chunk, which is the offset behind the first payload plus the size of
-- the field, and all its bytes are inside the payload, except when the end of the field plus its
-- size lies beyond two payloads.
pub um_cpointer_offset-inside :
    (s : GcState) (p : Address) (o size : ℕ)
    → s.start ≤ p
    → p < s.heap_end
    → (s.mem (normal_chunk p)).next_chunk ≢ 0
    → (a : Address) × (k : ℕ) × (um_cpointer_offset s p o size ≡ ok (inside a k))
      × (((o + size + 4 ≤ um_chunk_payload_size)
            × (a ≡ normal_chunk p)
            × (k ≡ o + 4)
            × (k + size ≤ um_chunk_payload_size))
          ⊎ ((um_chunk_payload_size < o + size + 4)
              × (a ≡ (s.mem (normal_chunk p)).next_chunk)
              × (k + um_chunk_payload_size ≡ o + 4 + size)
              × ((k + size ≤ um_chunk_payload_size)
                  ↔ (o + 4 + 2 * size ≤ 2 * um_chunk_payload_size))))
unfolding um_cpointer_offset
um_cpointer_offset-inside s p o size lo hi linked =
    elim (dec_le (o + size + 4) um_chunk_payload_size) [
      | yes fits ↦ (normal_chunk p, o + 4, ground arith, inl (fits, refl, refl, omega arith))
      | no spills ↦ (
        (s.mem (normal_chunk p)).next_chunk,
        o + 4 + size - um_chunk_payload_size,
        ground arith,
        inr (omega arith, refl, omega arith, ((λ h. omega (arith, h)), λ h. omega (arith, h))),
      )
    ]
