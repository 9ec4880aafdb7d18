-- ===== src/IntInf/Finish.antt =====
-- `finiIntInfRes` returns a word that `fillIntInfArg` reads back (runtime/gc/int-inf.c).
use rtmlton.Prelude.{
  ℕ, suc, ◌+◌, ◌-◌, ◌%◌, ◌^◌, ◌<◌, ◌≡◌, ◌≢◌, refl, sym, ap, ◌∙◌, true, false, ◌&&◌, Bool-cases, inl,
  inr, leb, ltb, ==_refl, ◌==◌, if◌then◌else◌, arith,
}
use rtmlton.Prelude.Outcome.{ok}
use rtmlton.Chunk.{Address}
use rtmlton.IntInf.{
  Limbs, object_of, ℤ, pos, negsuc, signed, is_neg, abs, int32, Mpz, Bignum, Bignums, intinf_header,
  is_small, small_limb, fill_bignum, fill_int_inf_arg, small_value, small_word, with_result,
  keep_bignum, fini_int_inf_res,
}
use rtmlton.IntInf.Words.{word_small, word_ne_one, word_sign, limb-word}
use rtmlton.IntInf.Round.{
  IsNumber, SameNumber, signed-abs, fill_int_inf_arg-word, fini_int_inf_res-word,
  fini_int_inf_res-bignum, fill_int_inf_arg-bignum,
}

-- The word that has been returned for `r`, and the heap afterwards.
pub record Finished (s : Bignums) (r : Mpz) : Type 0 where
  pub word : ℕ
  pub after : Bignums
  pub returns : fini_int_inf_res s r ≡ ok (word, after)
  pub filled :
      (space : Limbs) → (r' : Mpz) × (fill_int_inf_arg after word space ≡ ok r') × SameNumber r r'
  pub others : (q : Address) → q ≢ object_of r → after.objects q ≡ s.objects q

no_limbs : (z : ℤ) → (abs z == 0) ≡ true → z ≡ pos 0
no_limbs (pos n) h = ap pos (ground (arith, h))
no_limbs (negsuc n) h = absurd (ground (arith, h))

stored_size : (n : ℕ) → n < 2 ^ 31 → int32 (((n + 1) % 2 ^ 32 + (2 ^ 32 - 1)) % 2 ^ 32) ≡ pos n
stored_size n small =
    let e : ((n + 1) % 2 ^ 32 + (2 ^ 32 - 1)) % 2 ^ 32 ≡ n = omega arith in
    let l : ltb n (2 ^ 31) ≡ true = ground (arith, small) in rw e (rw l refl)

-- the sign and size that are read from a bignum
fill_bignum-size :
    (p : Address) (b : Bignum) (z : ℤ)
    → abs z < 2 ^ 31
    → b.length ≡ (abs z + 1) % 2 ^ 32
    → b.isneg ≡ (if is_neg z then 1 else 0)
    → (fill_bignum p b).mp_size ≡ z
unfolding fill_bignum
fill_bignum-size p b (pos n) small l e = rw (l, e) (rw (stored_size n small) refl)
fill_bignum-size p b (negsuc n) small l e = rw (l, e) (rw (stored_size (suc n) small) refl)

fill_bignum-limbs : (p : Address) (b : Bignum) → (fill_bignum p b).mp_d ≡ b.limbs
unfolding fill_bignum
fill_bignum-limbs p b = refl

module _ (s : Bignums) (r : Mpz) (num : IsNumber r) where
  others_same : (q : Address) → q ≢ object_of r → (with_result s r).objects q ≡ s.objects q
  others_same q ne = let e : (object_of r == q) ≡ false = ground (arith, ne) in rw e refl

  one_limb : abs r.mp_size ≡ 1 → r.mp_d 0 ≢ 0
  one_limb one = let t = num.trimmed in let t' = (rw one at t) in ground (arith, t')

  zero-Finished : r.mp_size ≡ pos 0 → Finished s r
  unfolding fini_int_inf_res fill_int_inf_arg
  zero-Finished z = record {
    word = 1;
    after = with_result s r;
    returns = let t = num.trimmed in rw t (rw z refl);
    filled = λ space. (
      record { mp_alloc = pos 2; mp_size = pos 0; mp_d = space.limb; mp_d_at = space.at },
      refl,
      record { size = sym z; limbs = λ i small. absurd (omega (arith, ap abs z)) },
    );
    others = others_same;
  }

  word-Finished :
      abs r.mp_size ≡ 1 → small_value (is_neg r.mp_size) (r.mp_d 0) < 2 ^ 30 → Finished s r
  word-Finished one fits =
      let neg = is_neg r.mp_size in
      let val = r.mp_d 0 in
      let nonzero : val ≢ 0 = one_limb one in
      let w32 : val < 2 ^ 32 = num.limbs 0 (omega (arith, one)) in
      let limb = limb-word neg val nonzero w32 fits in
      let sign = word_sign neg val nonzero w32 fits in
      record {
        word = small_word neg val;
        after = with_result s r;
        returns = fini_int_inf_res-word s r num.trimmed one fits;
        filled = λ space. (
          record {
            mp_alloc = pos 2;
            mp_size = signed (leb (2 ^ 31) (small_word neg val)) 1;
            mp_d = λ i. if i == 0 then small_limb (small_word neg val) else space.limb i;
            mp_d_at = space.at;
          },
          fill_int_inf_arg-word (with_result s r) (small_word neg val) space (word_small neg val)
              (word_ne_one neg val nonzero w32 fits) (rw limb nonzero),
          record {
            size = rw sign (ap (λ n. signed neg n) (sym one) ∙ signed-abs r.mp_size);
            limbs = λ i small. let e : i ≡ 0 = omega (arith, one, small) in rw e limb;
          },
        );
        others = others_same;
      }

  -- the bignum that is made
  abbrev kept : Bignums
  kept = (keep_bignum (with_result s r) (object_of r) (abs r.mp_size)).1

  made : Bignum
  made = kept.objects (object_of r)

  kept_word : (keep_bignum (with_result s r) (object_of r) (abs r.mp_size)).0 ≡ object_of r
  unfolding keep_bignum
  kept_word = refl

  kept_object : made ≡ record {
    counter = 0;
    length = (abs r.mp_size + 1) % 2 ^ 32;
    header = intinf_header;
    isneg = if is_neg r.mp_size then 1 else 0;
    limbs = r.mp_d;
  }
  unfolding keep_bignum made
  kept_object = let e = ==_refl (object_of r) in rw e refl

  kept_others : (q : Address) → q ≢ object_of r → kept.objects q ≡ s.objects q
  unfolding keep_bignum
  kept_others q ne = let e : (object_of r == q) ≡ false = ground (arith, ne) in rw e refl

  made_size : (fill_bignum (object_of r) made).mp_size ≡ r.mp_size
  made_size =
      fill_bignum-size (object_of r) made r.mp_size num.size (ap (λ b. b.length) kept_object)
        (ap (λ b. b.isneg) kept_object)

  made_limbs : (fill_bignum (object_of r) made).mp_d ≡ r.mp_d
  made_limbs = fill_bignum-limbs (object_of r) made ∙ ap (λ b. b.limbs) kept_object

  bignum-Finished :
      object_of r % 2 ≡ 0
      → (abs r.mp_size == 0) ≡ false
      → (leb (abs r.mp_size) 1 && ltb (small_value (is_neg r.mp_size) (r.mp_d 0)) (2 ^ 30)) ≡ false
      → Finished s r
  unfolding made
  bignum-Finished even nonzero large =
      let p = object_of r in
      let no_word : is_small p ≡ false = ground (arith, even) in
      record {
        word = p;
        after = kept;
        returns =
            fini_int_inf_res-bignum s r num.trimmed nonzero large
            ∙ ap (λ w. ok (w, kept)) kept_word;
        filled = λ space. (
          fill_bignum (object_of r) made,
          fill_int_inf_arg-bignum kept p space no_word (ap (λ b. b.header) kept_object)
              (rw (made_size, made_limbs) num.trimmed),
          record { size = made_size; limbs = λ i small. ap (λ d. d i) made_limbs },
        );
        others = kept_others;
      }

  -- When the object of a number is at an even address, `finiIntInfRes` returns for it a word that `fillIntInfArg` reads as
  -- that number, and it writes no object but that one.
  pub fini_int_inf_res-Finished : object_of r % 2 ≡ 0 → Finished s r
  fini_int_inf_res-Finished even = elim (Bool-cases (abs r.mp_size == 0)) [
    | inl z ↦ zero-Finished (no_limbs r.mp_size z)
    | inr nonzero ↦
        elim (Bool-cases
          (leb (abs r.mp_size) 1 && ltb (small_value (is_neg r.mp_size) (r.mp_d 0)) (2 ^ 30))) [
            | inl fits ↦ word-Finished (ground (arith, nonzero, fits)) (ground (arith, fits))
            | inr large ↦ bignum-Finished even nonzero large
          ]
  ]
