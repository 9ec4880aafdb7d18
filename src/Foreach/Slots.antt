-- ===== src/Foreach/Slots.antt =====
-- The slots that `foreachObjptrInObject` (runtime/gc/foreach.c) visits in an array outside the chunked
-- heap.
use mathlib.Core.Path.{fun_ext}
use rtmlton.Prelude.{
  ℕ, zero, suc, ◌+◌, ◌*◌, ◌<◌, ◌≡◌, refl, sym, ap, ◌∙◌, Bool, true, ◌||◌, ltb, leb, ltb→lt, ==_iff,
  ◌==◌, Bool-cases, inl, inr, List, [], ◌∷◌, ◌++◌, arith,
}
use rtmlton.Prelude.Outcome.{Outcome, ok, die, fault, ◌>>=◌}
use rtmlton.Chunk.{Address}
use rtmlton.State.{GcState}
use rtmlton.Object.{
  Program, Location, outside, ObjectType, array_tag, split_header, get_header, array_chunk,
}
use rtmlton.ArrayTree.{get_array_length}
use rtmlton.Foreach.{
  call_slot, foreach_at, foreach_old_element, foreach_old_array, foreach_objptr_in_object,
}

-- `n` consecutive slots from `a` on
abbrev pub pointer_slots : Address → ℕ → List Location
pointer_slots a zero = []
pointer_slots a (suc n) = outside a ∷ pointer_slots (a + 4) n

-- the slots of the pointers in `n` elements from `a` on
abbrev pub element_slots : Address → ObjectType → ℕ → List Location
element_slots a ty zero = []
element_slots a ty (suc n) =
    pointer_slots (a + ty.bytes_non_objptrs) ty.num_objptrs
    ++ element_slots (a + (ty.bytes_non_objptrs + ty.num_objptrs * 4)) ty n

>>=-assoc :
    {A B C : Type 0} (r : Outcome A) (f : A → Outcome B) (g : B → Outcome C)
    → (r >>= f >>= g) ≡ (r >>= (λ x. f x >>= g))
>>=-assoc (ok x) f g = refl
>>=-assoc die f g = refl
>>=-assoc fault f g = refl

pointer_slots-append :
    (a : Address) (k m : ℕ)
    → pointer_slots a (k + m) ≡ pointer_slots a k ++ pointer_slots (a + k * 4) m
pointer_slots-append a zero m =
    let e : 0 + m ≡ m = omega arith in
    let e' : a ≡ a + 0 * 4 = omega arith in ap (pointer_slots a) e ∙ ap (λ b. pointer_slots b m) e'
pointer_slots-append a (suc k) m =
    let e : a + 4 + k * 4 ≡ a + suc k * 4 = omega arith in
    let e' : suc k + m ≡ suc (k + m) = omega arith in
    ap (pointer_slots a) e'
    ∙ ap (λ l. outside a ∷ l)
        (pointer_slots-append (a + 4) k m
          ∙ ap (λ b. pointer_slots (a + 4) k ++ pointer_slots b m) e)

-- Elements of nothing but pointers.
pointers-element_slots :
    (a : Address) (ty : ObjectType) (n : ℕ)
    → ty.bytes_non_objptrs ≡ 0
    → pointer_slots a (n * ty.num_objptrs) ≡ element_slots a ty n
pointers-element_slots a ty zero e =
    let none : 0 * ty.num_objptrs ≡ 0 = omega arith in ap (pointer_slots a) none
pointers-element_slots a ty (suc n) e =
    let k = ty.num_objptrs in
    let b = a + (ty.bytes_non_objptrs + k * 4) in
    let here : a + ty.bytes_non_objptrs ≡ a = omega (arith, e) in
    let next : a + k * 4 ≡ b = omega (arith, e) in
    let more : suc n * k ≡ k + n * k = omega arith in
    ap (pointer_slots a) more
    ∙ pointer_slots-append a k (n * k)
    ∙ ap (λ x. pointer_slots a k ++ pointer_slots x (n * k)) next
    ∙ ap (λ l. pointer_slots a k ++ l) (pointers-element_slots b ty n e)
    ∙ ap (λ x. pointer_slots x k ++ element_slots b ty n) (sym here)

-- Elements without pointers.
no_pointers-element_slots :
    (a : Address) (ty : ObjectType) (n : ℕ) → ty.num_objptrs ≡ 0 → element_slots a ty n ≡ []
no_pointers-element_slots a ty zero e = refl
no_pointers-element_slots a ty (suc n) e =
    ap
      (λ k.
        pointer_slots (a + ty.bytes_non_objptrs) k
        ++ element_slots (a + (ty.bytes_non_objptrs + ty.num_objptrs * 4)) ty n)
      e
    ∙ no_pointers-element_slots (a + (ty.bytes_non_objptrs + ty.num_objptrs * 4)) ty n e

-- An array of less than four bytes has no element with a pointer.
few_bytes :
    (a : Address) (ty : ObjectType) (n : ℕ)
    → n * (ty.bytes_non_objptrs + ty.num_objptrs * 4) < 4
    → element_slots a ty n ≡ []
few_bytes a ty zero small = refl
few_bytes a ty (suc n) small =
    no_pointers-element_slots a ty (suc n) (one_or_none ty.num_objptrs small)
  where
    one_or_none : (k : ℕ) → suc n * (ty.bytes_non_objptrs + k * 4) < 4 → k ≡ 0
    one_or_none zero h = refl
    one_or_none (suc k) h = absurd (omega (arith, h))

module _ {S : Type 0} (gc : S → GcState) (pr : Program) (f : Location → S → Outcome S) where
  -- `callIfIsObjptr` for one slot after the other
  abbrev pub visit_all : List Location → S → Outcome S
  visit_all [] s = ok s
  visit_all (l ∷ ls) s = call_slot gc pr f l s >>= visit_all ls

  visit_all-append :
      (xs ys : List Location) (s : S) → visit_all (xs ++ ys) s ≡ (visit_all xs s >>= visit_all ys)
  visit_all-append [] ys s = refl
  visit_all-append (x ∷ xs) ys s =
      ap (λ g. call_slot gc pr f x s >>= g) (fun_ext (visit_all-append xs ys))
      ∙ sym (>>=-assoc (call_slot gc pr f x s) (visit_all xs) (visit_all ys))

  foreach_at-visit_all :
      (a o n : ℕ) (s : S)
      → foreach_at gc pr f (outside a) o n s ≡ visit_all (pointer_slots (a + o) n) s
  unfolding foreach_at
  foreach_at-visit_all a o zero s = refl
  foreach_at-visit_all a o (suc n) s =
      let e : a + (o + 4) ≡ a + o + 4 = omega arith in
      ap (λ g. call_slot gc pr f (outside (a + o)) s >>= g)
        (fun_ext
          (λ t. foreach_at-visit_all a (o + 4) n t ∙ ap (λ b. visit_all (pointer_slots b n) t) e))

  foreach_old_element-visit_all :
      (a : Address) (ty : ObjectType) (n : ℕ) (s : S)
      → foreach_old_element gc pr f a ty n s ≡ visit_all (element_slots a ty n) s
  unfolding foreach_old_element
  foreach_old_element-visit_all a ty zero s = refl
  foreach_old_element-visit_all a ty (suc n) s =
      let b = a + (ty.bytes_non_objptrs + ty.num_objptrs * 4) in
      let here = pointer_slots (a + ty.bytes_non_objptrs) ty.num_objptrs in
      ap (λ r. r >>= foreach_old_element gc pr f b ty n)
        (foreach_at-visit_all a ty.bytes_non_objptrs ty.num_objptrs s)
      ∙ ap (λ g. visit_all here s >>= g) (fun_ext (foreach_old_element-visit_all b ty n))
      ∙ sym (visit_all-append here (element_slots b ty n) s)

  foreach_old_array-visit_all :
      (p : Address) (ty : ObjectType) (s : S)
      → foreach_old_array gc pr f p ty s
        ≡ visit_all (element_slots p ty (get_array_length (gc s).mem (array_chunk p))) s
  unfolding foreach_old_array
  foreach_old_array-visit_all p ty s =
      let n = get_array_length (gc s).mem (array_chunk p) in
      elim (Bool-cases (ltb (n * (ty.bytes_non_objptrs + ty.num_objptrs * 4)) 4)) [
        | inl few ↦ rw few (ap (λ l. visit_all l s) (sym (few_bytes p ty n (ltb→lt _ 4 few))))
        | inr more ↦ elim (Bool-cases (ty.num_objptrs == 0)) [
          | inl none ↦
              rw (more, none)
                (ap (λ l. visit_all l s)
                  (sym (no_pointers-element_slots p ty n ((==_iff ty.num_objptrs 0).0 none))))
          | inr some ↦ elim (Bool-cases (ty.bytes_non_objptrs == 0)) [
            | inl pointers ↦
                let at : p + 0 ≡ p = omega arith in
                rw (more, some, pointers)
                  (foreach_at-visit_all p 0 (n * ty.num_objptrs) s
                    ∙ ap (λ b. visit_all (pointer_slots b (n * ty.num_objptrs)) s) at
                    ∙ ap (λ l. visit_all l s)
                        (pointers-element_slots p ty n
                          ((==_iff ty.bytes_non_objptrs 0).0 pointers)))
            | inr mixed ↦ rw (more, some, mixed) (foreach_old_element-visit_all p ty n s)
          ]
        ]
      ]

  -- For an array that lies outside the chunked heap, `foreachObjptrInObject` is `callIfIsObjptr` for
  -- each pointer of each element, in the order of their addresses, and for no other slot: also where
  -- the code stops at once, since there are less bytes than a pointer has or no pointers, and where it
  -- runs through the array in one loop, since its elements are nothing but pointers.
  pub foreach_objptr_in_object-visit_all :
      (skip_weaks : Bool) (p : Address) (ty : ObjectType) (s : S)
      → split_header pr.object_types (get_header (gc s).mem p) ≡ ok ty
      → ty.tag ≡ array_tag
      → (ltb p (gc s).start || leb ((gc s).start + (gc s).size) p) ≡ true
      → foreach_objptr_in_object gc pr f skip_weaks p s
        ≡ visit_all (element_slots p ty (get_array_length (gc s).mem (array_chunk p))) s
  unfolding foreach_objptr_in_object
  foreach_objptr_in_object-visit_all skip_weaks p ty s type_of tag out =
      rw type_of (simp (tag, out) (foreach_old_array-visit_all p ty s))
