-- ===== src/Foreach.antt =====
-- runtime/gc/foreach.c: a function is applied to each object pointer in an object. The function
-- gets the slot that holds the pointer, and a state that `gc` finds the collector's in.
pub mod Slots
use rtmlton.Prelude.{
  ℕ, zero, suc, ◌+◌, ◌*◌, Bool, ◌&&◌, ◌||◌, not, ltb, leb, ◌==◌, if◌then◌else◌, List, [], ◌∷◌,
}
use rtmlton.Prelude.Outcome.{Outcome, ok, die, fault, ◌>>=◌}
use rtmlton.Chunk.{Address, Memory}
use rtmlton.State.{GcState}
use rtmlton.Object.{
  Program, Location, inside, outside, array_tag, normal_tag, stack_tag, weak_tag, error_tag,
  ObjectType, split_header, get_header, is_objptr, is_on_um_heap, is_object_on_um_heap,
  normal_chunk, array_chunk, um_cpointer_offset,
}
use rtmlton.ArrayTree.{
  internal_pointers, array_payload_size, get_array_length, um_walk_array_leafs, um_array_offset,
}

-- a function of an object, by its address
abbrev pub Visit : Type 0
Visit = Address → GcState → Outcome GcState

abbrev pub load : Program → Memory → Location → ℕ
load pr m (inside a k) = (m a).word k
load pr m (outside a) = pr.static_word a

-- `callIfIsObjptr`, for a function of the slot's value
unfoldable pub call_if_is_objptr : Visit → ℕ → GcState → Outcome GcState
call_if_is_objptr f p s = if is_objptr p && is_on_um_heap s p then f p s else ok s

-- the function of a slot that takes the slot's value
abbrev pub at_slot : Program → Visit → Location → GcState → Outcome GcState
at_slot pr f loc s = f (load pr s.mem loc) s

-- the location `o` bytes further
abbrev pub word_of : Location → ℕ → Location
word_of (inside a k) o = inside a (k + o)
word_of (outside a) o = outside (a + o)

-- `f` is the `GC_foreachObjptrFun`.
module _ {S : Type 0} (gc : S → GcState) (pr : Program) (f : Location → S → Outcome S) where
  -- `callIfIsObjptr`
  unfoldable pub call_slot : Location → S → Outcome S
  call_slot loc s =
      let p = load pr (gc s).mem loc in
      if is_objptr p && is_on_um_heap (gc s) p then f loc s else ok s

  -- The pointers of a normal object, `n` of them from the `i`-th on.
  unfoldable pub foreach_field : Address → ℕ → ℕ → ℕ → S → Outcome S
  unfolding call_slot
  foreach_field p base zero i s = ok s
  foreach_field p base (suc n) i s = do
    loc ← um_cpointer_offset (gc s) p (base + i * 4) 4
    s' ← (if load pr (gc s).mem loc == 0 then ok s else call_slot loc s)
    foreach_field p base n (i + 1) s'

  -- Consecutive words of a chunk, `n` of them.
  unfoldable pub foreach_word : Address → ℕ → ℕ → S → Outcome S
  unfolding call_slot
  foreach_word c k zero s = ok s
  foreach_word c k (suc n) s = call_slot (inside c k) s >>= (λ s'. foreach_word c (k + 4) n s')

  -- An array of nothing but pointers, leaf by leaf while there are bytes left.
  unfoldable pub foreach_leaf : ℕ → ℕ → ℕ → Address → S → Outcome S
  unfolding foreach_word
  foreach_leaf zero data_bytes position leaf s = fault
  foreach_leaf (suc fuel) data_bytes position leaf s =
      if leaf == 0 || leb data_bytes position then ok s else do
        s' ← foreach_word leaf 0 internal_pointers s
        next ← um_walk_array_leafs 8 (gc s').mem leaf
        foreach_leaf fuel data_bytes (position + array_payload_size) next s'

  unfoldable pub foreach_at : Location → ℕ → ℕ → S → Outcome S
  unfolding call_slot
  foreach_at loc o zero s = ok s
  foreach_at loc o (suc n) s = call_slot (word_of loc o) s >>= (λ s'. foreach_at loc (o + 4) n s')

  -- An array whose elements mix pointers and other data, `n` elements from the `i`-th on.
  unfoldable pub foreach_element : Address → ObjectType → ℕ → ℕ → S → Outcome S
  unfolding foreach_at
  foreach_element p ty zero i s = ok s
  foreach_element p ty (suc n) i s = do
    el ← um_array_offset pr (gc s) p i (ty.bytes_non_objptrs + ty.num_objptrs * 4) 0
    s' ← foreach_at el ty.bytes_non_objptrs ty.num_objptrs s
    foreach_element p ty n (i + 1) s'

  -- The array of a chunked heap at `p`.
  unfoldable pub foreach_array : Address → ObjectType → S → Outcome S
  unfolding foreach_leaf foreach_element
  foreach_array p ty s =
      let c = array_chunk p in
      let n = get_array_length (gc s).mem c in
      if ty.num_objptrs == 0
      then ok s
      else if ty.bytes_non_objptrs == 0
      then (do
        leaf ← um_walk_array_leafs 8 (gc s).mem c
        foreach_leaf (n * (ty.num_objptrs * 4) + 1) (n * (ty.num_objptrs * 4)) 0
            (if leaf == 0 then c else leaf) s)
      else foreach_element p ty ((gc s).mem c).array.array_chunk_length 0 s

  -- The pointers of a stack frame, whose offsets the program gives for its return address.
  unfoldable pub foreach_offset : Address → List ℕ → S → Outcome S
  unfolding call_slot
  foreach_offset c [] s = ok s
  foreach_offset c (o ∷ os) s = call_slot (inside c (o + 4)) s >>= (λ s'. foreach_offset c os s')

  -- Elements of an array that lies outside the chunked heap, `n` of them from `a` on.
  unfoldable pub foreach_old_element : Address → ObjectType → ℕ → S → Outcome S
  unfolding foreach_at
  foreach_old_element a ty zero s = ok s
  foreach_old_element a ty (suc n) s = do
    s' ← foreach_at (outside a) ty.bytes_non_objptrs ty.num_objptrs s
    foreach_old_element (a + (ty.bytes_non_objptrs + ty.num_objptrs * 4)) ty n s'

  -- The array outside the chunked heap at `p`: its elements lie one behind the other.
  unfoldable pub foreach_old_array : Address → ObjectType → S → Outcome S
  unfolding foreach_at foreach_old_element
  foreach_old_array p ty s =
      let n = get_array_length (gc s).mem (array_chunk p) in
      if ltb (n * (ty.bytes_non_objptrs + ty.num_objptrs * 4)) 4
      then ok s
      else if ty.num_objptrs == 0
      then ok s
      else if ty.bytes_non_objptrs == 0
      then foreach_at (outside p) 0 (n * ty.num_objptrs) s
      else foreach_old_element p ty n s

  -- `foreachObjptrInObject`
  unfoldable pub foreach_objptr_in_object : Bool → Address → S → Outcome S
  unfolding foreach_field foreach_array foreach_old_array foreach_offset call_slot
  foreach_objptr_in_object skip_weaks p s = do
    ty ← split_header pr.object_types (get_header (gc s).mem p)
    elim ty.tag [
      | normal_tag ↦
          if is_object_on_um_heap (gc s) p
          then foreach_field p ty.bytes_non_objptrs ty.num_objptrs 0 s
          else die
      | weak_tag ↦
          if (ty.num_objptrs == 1) && not skip_weaks
          then call_slot (inside (normal_chunk p) (ty.bytes_non_objptrs + 4)) s
          else ok s
      | array_tag ↦
          if ltb p (gc s).start || leb ((gc s).start + (gc s).size) p
          then foreach_old_array p ty s
          else foreach_array p ty s
      | stack_tag ↦
          let c = normal_chunk p in
          if ((gc s).mem c).ra == 0
          then fault
          else foreach_offset c (pr.frame_offsets (((gc s).mem c).word ((gc s).mem c).ra)) s
      | error_tag ↦ fault
    ]
