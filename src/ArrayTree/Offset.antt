-- ===== src/ArrayTree/Offset.antt =====
-- The walk of `UM_Array_offset` (runtime/gc/um.c) through an array of several chunks.
use native.Mathlib.Nat.{
  mul-pos, mod-add-div', mul-le-mul_right, mul-div-le, div-eq_of_lt, mod-lt, pow-suc, div-add-mod,
  mul-add-div, mul-div-mul_right, div-lt_iff_lt-mul,
}
use rtmlton.Prelude.{
  ℕ, zero, suc, ◌+◌, ◌-◌, ◌*◌, ◌/◌, ◌%◌, ◌^◌, ◌≤◌, ◌<◌, ◌≡◌, ◌≢◌, refl, sym, ap, ◌∙◌, true, arith,
}
use rtmlton.Prelude.Outcome.{ok}
use rtmlton.Chunk.{Address, Memory, um_chunk_array_internal, um_chunk_array_leaf}
use rtmlton.State.{GcState}
use rtmlton.Object.{Program, inside, array_chunk}
use rtmlton.ArrayTree.{
  array_payload_size, has_magic, slice_width, offset_loop, offset_end, um_array_offset,
}
use rtmlton.ArrayTree.Power.{ipow-pow}

-- the number of elements under a node
abbrev pub slice_of : ℕ → ℕ → ℕ
slice_of h epc = 75 ^ h * epc

abbrev pub child : Memory → Address → ℕ → Address
child m c k = (m c).array.um_array_pointers k

-- The way from the node `c`, `h` levels above the leaves, to the leaf with the `i`-th element under
-- `c`: the nodes on it are well formed, and the float expression that selects the pointer is exact
-- at each of them.
unfoldable pub LeadsTo : Program → Memory → ℕ → ℕ → Address → ℕ → Address → Type 0
LeadsTo pr m epc zero c i leaf = ((m c).array.array_chunk_type ≡ um_chunk_array_leaf) × (c ≡ leaf)
LeadsTo pr m epc (suc h) c i leaf =
    ((m c).array.array_chunk_type ≡ um_chunk_array_internal)
    × (has_magic m c ≡ true)
    × (pr.next_slot i (slice_of (suc h) epc) ≡ i * 75 / slice_of (suc h) epc)
    × (child m c (i / slice_of h epc) ≢ 0)
    × (has_magic m (child m c (i / slice_of h epc)) ≡ true)
    × LeadsTo pr m epc h (child m c (i / slice_of h epc)) (i % slice_of h epc) leaf

-- The arithmetic of one level, for nodes of `p * epc` elements below a node of 75 times as many.
module _ (i p epc : ℕ) (pos : 0 < p * epc) where
  next_exact : i * 75 / (p * 75 * epc) ≡ i / (p * epc)
  next_exact =
      let swap : p * 75 * epc ≡ p * epc * 75 = grind arith in
      rw swap (mul-div-mul_right i (p * epc) (omega arith))

  width_exact : p * 75 * epc / 75 ≡ p * epc
  width_exact = grind arith

  next_bound : i < p * 75 * epc → i / (p * epc) < 75
  next_bound h = (div-lt_iff_lt-mul pos).1 (grind (arith, h))

  leaf_first : 0 < epc → p * epc * (i / (p * epc)) + i % (p * epc) / epc * epc ≡ i / epc * epc
  leaf_first e =
      let q = i / (p * epc) in
      let r = i % (p * epc) in
      let whole : epc * (p * q) + r ≡ i = grind (arith, div-add-mod i (p * epc)) in
      let split : i / epc ≡ p * q + r / epc =
        sym (ap (λ z. z / epc) whole) ∙ mul-add-div e (p * q) r in
      grind (arith, split)

pow75_pos : (h : ℕ) → 0 < 75 ^ h
pow75_pos zero = omega arith
pow75_pos (suc h) = grind (arith, pow-suc 75 h, pow75_pos h)

-- the loop's width, if it fits
slice_width-ok :
    (h epc : ℕ)
    → 75 ^ h < 2 ^ 31
    → slice_of h epc < 2 ^ 32
    → slice_width h epc ≡ ok (slice_of h epc)
unfolding slice_width
slice_width-ok h epc power small =
    let e : slice_of h epc % 2 ^ 32 ≡ slice_of h epc = omega (arith, small) in
    rw (ipow-pow 75 h (omega arith) power) (rw e refl)

-- What fits at one level fits below it.
power_below : (h : ℕ) → 75 ^ suc h < 2 ^ 31 → 75 ^ h < 2 ^ 31
power_below h small = omega (arith, pow-suc 75 h)

slice_below : (h epc : ℕ) → slice_of (suc h) epc < 2 ^ 32 → slice_of h epc < 2 ^ 32
slice_below h epc small =
    let e : 75 ^ suc h * epc ≡ 75 * (75 ^ h * epc) = rw (pow-suc 75 h) (grind arith) in
    omega (arith, e)

slice_suc : (h epc : ℕ) → slice_of (suc h) epc ≡ 75 ^ h * 75 * epc
slice_suc h epc = ap (λ z. z * epc) (pow-suc 75 h)

module _ (pr : Program) (m : Memory) (epc : ℕ) (pos : 0 < epc) where
  slice_pos : (h : ℕ) → 0 < 75 ^ h * epc
  slice_pos h = mul-pos (pow75_pos h) pos

  one_level :
      (h : ℕ) (c : Address) (i e0 : ℕ) (leaf : Address)
      → i < slice_of (suc h) epc
      → 75 ^ suc h < 2 ^ 31
      → e0 + i < 2 ^ 32
      → slice_of (suc h) epc < 2 ^ 32
      → LeadsTo pr m epc (suc h) c i leaf
      → offset_loop pr m (e0 + i) epc (suc h) c e0 (slice_of (suc h) epc)
        ≡ offset_loop pr m
            (e0 + i)
            epc
            h
            (child m c (i / slice_of h epc))
            (e0 + slice_of h epc * (i / slice_of h epc))
            (slice_of h epc)
  unfolding offset_loop LeadsTo
  one_level h c i e0 leaf small power index32 slice32 (type, magic, next, ne, magic', rest) =
      let cancel : e0 + i - e0 ≡ i = omega arith in
      let wide = slice_suc h epc in
      let next' : pr.next_slot i (slice_of (suc h) epc) ≡ i / slice_of h epc =
        next ∙ ap (λ z. i * 75 / z) wide ∙ next_exact i (75 ^ h) epc (slice_pos h) in
      let width : slice_of (suc h) epc / 75 ≡ slice_of h epc =
        ap (λ z. z / 75) wide ∙ width_exact i (75 ^ h) epc (slice_pos h) in
      let bound = next_bound i (75 ^ h) epc (slice_pos h) (omega (arith, wide)) in
      let below = mul-div-le i (slice_of h epc) in
      let widths = slice_width-ok h epc (power_below h power) (slice_below h epc slice32) in
      let wraps : (e0 + slice_of h epc * (i / slice_of h epc)) % 2 ^ 32
          ≡ e0 + slice_of h epc * (i / slice_of h epc) =
        omega (arith, below, index32) in
      rw (cancel, next', width, wraps, widths)
        (ground (arith, type, magic, ne, magic', bound, below))

  offset_loop-leaf :
      (h : ℕ) (c : Address) (i e0 : ℕ) (leaf : Address)
      → i < slice_of h epc
      → 75 ^ h < 2 ^ 31
      → e0 + i < 2 ^ 32
      → slice_of h epc < 2 ^ 32
      → LeadsTo pr m epc h c i leaf
      → offset_loop pr m (e0 + i) epc h c e0 (slice_of h epc) ≡ ok (leaf, e0 + i / epc * epc)
  unfolding offset_loop LeadsTo
  offset_loop-leaf zero c i e0 leaf small power index32 slice32 (type, here) =
      let first : i / epc ≡ 0 = div-eq_of_lt (omega arith) in ground (arith, type, here, first)
  offset_loop-leaf (suc h) c i e0 leaf small power index32 slice32 way =
      let s = slice_of h epc in
      let index : e0 + i ≡ e0 + s * (i / s) + i % s = omega (arith, div-add-mod i s) in
      let rest =
        offset_loop-leaf h (child m c (i / s)) (i % s) (e0 + s * (i / s)) leaf
          (mod-lt i (slice_pos h)) (power_below h power) (omega (arith, index, index32))
          (slice_below h epc slice32) way.5 in
      let first : e0 + s * (i / s) + i % s / epc * epc ≡ e0 + i / epc * epc =
        omega (arith, leaf_first i (75 ^ h) epc (slice_pos h) pos) in
      one_level h c i e0 leaf small power index32 slice32 way
      ∙ ap (λ z. offset_loop pr m z epc h (child m c (i / s)) (e0 + s * (i / s)) s) index
      ∙ rest
      ∙ ap (λ z. ok (leaf, z)) first

-- an array of the heap whose root has pointers, its leaves full to the payload
pub record IsTree (pr : Program) (s : GcState) (base i size : ℕ) (leaf : Address) : Type 0 where
  pub above : s.start ≤ base
  pub below : base < s.start + s.size
  pub magic : has_magic s.mem (array_chunk base) ≡ true
  pub root_type : (s.mem (array_chunk base)).array.array_chunk_type ≡ um_chunk_array_internal
  pub high : 0 < (s.mem (array_chunk base)).array.array_height
  pub per_chunk : 0 < (s.mem (array_chunk base)).array.num_els_per_chunk
  pub fits : (s.mem (array_chunk base)).array.num_els_per_chunk * size ≤ array_payload_size
  pub in_range :
      i
      < slice_of
          (s.mem (array_chunk base)).array.array_height
          (s.mem (array_chunk base)).array.num_els_per_chunk
  pub power : 75 ^ (s.mem (array_chunk base)).array.array_height < 2 ^ 31
  pub width :
      slice_of
        (s.mem (array_chunk base)).array.array_height
        (s.mem (array_chunk base)).array.num_els_per_chunk
      < 2 ^ 32
  pub way :
      LeadsTo pr s.mem
        (s.mem (array_chunk base)).array.num_els_per_chunk
        (s.mem (array_chunk base)).array.array_height
        (array_chunk base)
        i
        leaf

offset_end-inside :
    (i size o epc : ℕ) (leaf : Address)
    → 0 < epc
    → epc * size ≤ array_payload_size
    → o ≤ size
    → offset_end i size o (leaf, i / epc * epc) ≡ ok (inside leaf (i % epc * size + o))
unfolding offset_end
offset_end-inside i size o epc leaf pos fits small =
    let whole = mod-add-div' i epc in
    let rest : i - i / epc * epc ≡ i % epc = omega (arith, whole) in
    let bound : i % epc * size + size ≤ epc * size =
      grind (arith, mul-le-mul_right size (mod-lt i pos)) in
    let small' : i % epc * size + o ≤ array_payload_size = omega (arith, bound, fits, small) in
    let wraps : (i % epc * size + o) % 2 ^ 32 ≡ i % epc * size + o = omega (arith, small') in
    rw (rest, wraps) (ground (arith, whole, small'))

-- `UM_Array_offset` on an array of more than one chunk: the element `i` lies in the leaf that the
-- tree has for it, `i % num_els_per_chunk` elements behind the start of the payload, and nothing
-- fails; if the tree is well formed on the way to the leaf, the selecting float expression is
-- exact there, and the number of leaves that the root has room for fits an `int`, and of elements a
-- word.
pub um_array_offset-inside :
    (pr : Program) (s : GcState) (base i size o : ℕ) (leaf : Address)
    → IsTree pr s base i size leaf
    → o ≤ size
    → um_array_offset pr s base i size o
      ≡ ok (inside leaf (i % (s.mem (array_chunk base)).array.num_els_per_chunk * size + o))
unfolding um_array_offset
um_array_offset-inside pr s base i size o leaf t small =
    let a = (s.mem (array_chunk base)).array in
    let found =
      offset_loop-leaf pr s.mem a.num_els_per_chunk t.per_chunk a.array_height (array_chunk base) i
        0 leaf t.in_range t.power (omega (arith, t.in_range, t.width)) t.width t.way in
    let widths = slice_width-ok a.array_height a.num_els_per_chunk t.power t.width in
    let ending = offset_end-inside i size o a.num_els_per_chunk leaf t.per_chunk t.fits small in
    ground (arith, widths, found, ending, t.magic, t.root_type)
