-- ===== src/Examples/Marking.antt =====
-- A collection of a heap with two objects.
use mathlib.Core.Path.{subst}
use rtmlton.Prelude.{
  if◌then◌else◌, ◌||◌, ℕ, zero, suc, ◌<◌, ◌≡◌, ◌⊎◌, inl, inr, refl, sym, true, false, arith, List,
  [], ◌∷◌, ◌∈◌,
}
use rtmlton.Prelude.Outcome.{ok}
use rtmlton.Chunk.{Header, Address}
use rtmlton.State.{GcState}
use rtmlton.FreeList.Chain.{IsList-empty}
use rtmlton.Object.{ObjectType, normal_chunk, split_header, um_cpointer_offset}
use rtmlton.Mark.{um_dfs_mark_objects}
use rtmlton.Mark.World.{mark_of, Darker, pointer_field, is_followed, IsObject, IsWorld}
use rtmlton.Mark.Reach.{IsClosed, Reaches, here, field, um_dfs_mark_objects-Reaches}
use rtmlton.Sweep.{sweep}
use rtmlton.Sweep.Result.{IsHeap}
use rtmlton.Chunk.Masks.{
  is_set, set_bit, clear_bit, um_chunk_in_use, um_chunk_mark_mask, um_chunk_grey_mask,
  um_chunk_red_mask,
}
use rtmlton.HeaderWords.{word_of_header-updates}
use rtmlton.Cycle.{Collected, um_dfs_mark_objects-sweep}
use rtmlton.Examples.{linked_heap, program, pair_type}

abbrev pub objects : List Address
objects = 1008 ∷ 1360 ∷ []

abbrev pub type_at : Address → ObjectType
type_at p = pair_type

object_cases : (p : Address) → p ∈ objects → (p ≡ 1008) ⊎ (p ≡ 1360)
object_cases p i = ground (arith, i)

by_cases : (P : Address → Type 0) → P 1008 → P 1360 → (p : Address) → p ∈ objects → P p
by_cases P a b p i = elim (object_cases p i) [
  | inl e ↦ subst P (sym e) a
  | inr e ↦ subst P (sym e) b
]

first-IsObject : IsObject program linked_heap 1008 pair_type
unfolding split_header
first-IsObject = record {
  normal = record {
    type_of = refl;
    normal = refl;
    on_heap = refl;
    in_region = omega arith;
    sentinel = refl;
    not_null = omega arith;
  };
  in_use = refl;
  type = refl;
  unmarked = refl;
  fits = inl (omega arith);
}

second-IsObject : IsObject program linked_heap 1360 pair_type
unfolding split_header
second-IsObject = record {
  normal = record {
    type_of = refl;
    normal = refl;
    on_heap = refl;
    in_region = omega arith;
    sentinel = refl;
    not_null = omega arith;
  };
  in_use = refl;
  type = refl;
  unmarked = refl;
  fits = inl (omega arith);
}

first_points : pointer_field program linked_heap 1008 pair_type 0 ≡ 1360
unfolding um_cpointer_offset
first_points = refl

first_closed :
    (i : ℕ)
    → i < 2
    → is_followed linked_heap (pointer_field program linked_heap 1008 pair_type i) ≡ true
    → pointer_field program linked_heap 1008 pair_type i ∈ objects
unfolding um_cpointer_offset
first_closed zero small f = refl
first_closed (suc zero) small f = absurd (cc f)
first_closed (suc (suc i)) small f = absurd (omega arith)

second_closed :
    (i : ℕ)
    → i < 2
    → is_followed linked_heap (pointer_field program linked_heap 1360 pair_type i) ≡ true
    → pointer_field program linked_heap 1360 pair_type i ∈ objects
unfolding um_cpointer_offset
second_closed zero small f = absurd (cc f)
second_closed (suc zero) small f = absurd (cc f)
second_closed (suc (suc i)) small f = absurd (omega arith)

pub linked_heap-IsWorld : IsWorld program type_at objects linked_heap
linked_heap-IsWorld = record {
  object = by_cases (λ p. IsObject program linked_heap p pair_type) first-IsObject second-IsObject;
  heap = (omega arith, omega arith);
  closed = λ p i m small f.
      by_cases
        (λ x.
          is_followed linked_heap (pointer_field program linked_heap x pair_type i) ≡ true
          → pointer_field program linked_heap x pair_type i ∈ objects)
        (first_closed i small) (second_closed i small) p m f;
  apart = λ p q i j e. ground (arith, object_cases p i, object_cases q j, e);
}

pub linked_heap-IsHeap : IsHeap 2 [] linked_heap
linked_heap-IsHeap = record {
  start_pos = omega arith;
  layout = refl;
  region = omega arith;
  free = IsList-empty _;
  swept = IsList-empty _;
  room = omega arith;
  magic = λ a i. ground arith;
  freed = omega arith;
}

no_marks : (a : Address) → mark_of linked_heap a ≡ false
no_marks a = ground arith

linked_heap-IsClosed : IsClosed program type_at objects linked_heap
linked_heap-IsClosed a m k = absurd (cc (k, no_marks (normal_chunk a)))

linked : Reaches program type_at objects linked_heap 1008 1360
linked =
    field 1008 1360 0 (omega arith) (rw first_points refl) (
      subst (λ v. Reaches program type_at objects linked_heap v 1360) (sym first_points)
        (here 1360))

um_dfs_mark_objects-Reaches_example :
    (t : GcState) × (um_dfs_mark_objects program 3 1008 linked_heap ≡ ok t)
    × Darker linked_heap t
    × (mark_of t 1352 ≡ true)
um_dfs_mark_objects-Reaches_example =
    um_dfs_mark_objects-Reaches program type_at objects 3 1008 1360 linked_heap refl
      linked_heap-IsWorld linked_heap-IsClosed (omega arith) linked

um_dfs_mark_objects-sweep_example :
    (t : GcState) × (u : GcState) × (um_dfs_mark_objects program 3 1008 linked_heap ≡ ok t)
    × (sweep t ≡ ok u)
    × Collected 1352 linked_heap u
um_dfs_mark_objects-sweep_example =
    um_dfs_mark_objects-sweep program type_at objects 3 2 [] 1008 1360 linked_heap refl
      linked_heap-IsWorld linked_heap-IsClosed (λ a k. ground arith) (omega arith)
      linked_heap-IsHeap linked refl

-- a chunk in use that is marked and grey
abbrev black_header : Header
black_header = record { in_use = true; mark = true; grey = true; red = false }

word_of_header-updates_example :
    (is_set 0x83000000 um_chunk_in_use ≡ true)
    × (is_set 0x83000000 um_chunk_mark_mask ≡ true)
    × (is_set 0x83000000 um_chunk_grey_mask ≡ true)
    × (is_set 0x83000000 um_chunk_red_mask ≡ false)
    × (0x83000000 ≡ set_bit (clear_bit 0x83000000 um_chunk_red_mask) um_chunk_mark_mask)
    × (0x83000000 ≡ (
        if is_set 0x83000000 um_chunk_grey_mask || is_set 0x83000000 um_chunk_mark_mask
        then 0x83000000
        else set_bit (clear_bit 0x83000000 um_chunk_red_mask) um_chunk_grey_mask))
    × (0x82000000 ≡ (
        if is_set 0x83000000 um_chunk_mark_mask
        then clear_bit 0x83000000 um_chunk_mark_mask
        else clear_bit 0x83000000 um_chunk_grey_mask))
    × (0x83000000 ≡ set_bit 0x83000000 um_chunk_in_use)
word_of_header-updates_example = word_of_header-updates black_header
