-- ===== src/IntInf/Round.antt =====
-- From a number to its word and back: `finiIntInfRes` and `fillIntInfArg`
-- (runtime/gc/int-inf.c).
use rtmlton.Prelude.{
  ℕ, zero, suc, ◌^◌, ◌<◌, ◌≡◌, ◌≢◌, refl, Bool, true, false, ◌&&◌, leb, ltb, ◌==◌, if◌then◌else◌,
  arith,
}
use rtmlton.Prelude.Outcome.{ok}
use rtmlton.IntInf.{
  Limbs, object_of, ℤ, pos, negsuc, signed, is_neg, abs, Mpz, Bignums, intinf_header, is_small,
  is_trimmed, small_limb, fill_bignum, fill_int_inf_arg, small_value, small_word, with_result,
  keep_bignum, fini_int_inf_res,
}

-- What GMP makes of a result: its highest limb is not 0, limbs are words, and their number fits.
pub record IsNumber (r : Mpz) : Type 0 where
  pub trimmed : is_trimmed r ≡ true
  pub limbs : (i : ℕ) → i < abs r.mp_size → r.mp_d i < 2 ^ 32
  pub size : abs r.mp_size < 2 ^ 31

pub record SameNumber (r r' : Mpz) : Type 0 where
  pub size : r'.mp_size ≡ r.mp_size
  pub limbs : (i : ℕ) → i < abs r.mp_size → r'.mp_d i ≡ r.mp_d i

pub signed-abs : (z : ℤ) → signed (is_neg z) (abs z) ≡ z
signed-abs (pos n) = refl
signed-abs (negsuc n) = refl

pub abs-signed : (neg : Bool) (n : ℕ) → abs (signed neg n) ≡ n
abs-signed false n = refl
abs-signed true zero = refl
abs-signed true (suc n) = refl

pub is_neg-signed : (neg : Bool) → is_neg (signed neg 1) ≡ neg
is_neg-signed false = refl
is_neg-signed true = refl

-- the small integers
pub fill_int_inf_arg-word :
    (s : Bignums) (arg : ℕ) (space : Limbs)
    → is_small arg ≡ true
    → arg ≢ 1
    → small_limb arg ≢ 0
    → fill_int_inf_arg s arg space
      ≡ ok (record {
        mp_alloc = pos 2;
        mp_size = signed (leb (2 ^ 31) arg) 1;
        mp_d = λ i. if i == 0 then small_limb arg else space.limb i;
        mp_d_at = space.at;
      })
unfolding fill_int_inf_arg
fill_int_inf_arg-word s arg space small ne nonzero =
    let e : (arg == 1) ≡ false = ground (arith, ne) in
    let z : (small_limb arg == 0) ≡ false = ground (arith, nonzero) in
    rw (small, e) (rw (abs-signed (leb (2 ^ 31) arg) 1, z) refl)

pub fini_int_inf_res-word :
    (s : Bignums) (r : Mpz)
    → is_trimmed r ≡ true
    → abs r.mp_size ≡ 1
    → small_value (is_neg r.mp_size) (r.mp_d 0) < 2 ^ 30
    → fini_int_inf_res s r ≡ ok (small_word (is_neg r.mp_size) (r.mp_d 0), with_result s r)
unfolding fini_int_inf_res
fini_int_inf_res-word s r t one fits =
    let f : ltb (small_value (is_neg r.mp_size) (r.mp_d 0)) (2 ^ 30) ≡ true =
      ground (arith, fits) in
    rw t (rw (one, f) refl)

-- the numbers that stay in the heap
pub fini_int_inf_res-bignum :
    (s : Bignums) (r : Mpz)
    → is_trimmed r ≡ true
    → (abs r.mp_size == 0) ≡ false
    → (leb (abs r.mp_size) 1 && ltb (small_value (is_neg r.mp_size) (r.mp_d 0)) (2 ^ 30)) ≡ false
    → fini_int_inf_res s r ≡ ok (keep_bignum (with_result s r) (object_of r) (abs r.mp_size))
unfolding fini_int_inf_res
fini_int_inf_res-bignum s r t nonzero large = rw t (rw nonzero (rw large refl))

pub fill_int_inf_arg-bignum :
    (s : Bignums) (p : ℕ) (space : Limbs)
    → is_small p ≡ false
    → (s.objects p).header ≡ intinf_header
    → is_trimmed (fill_bignum p (s.objects p)) ≡ true
    → fill_int_inf_arg s p space ≡ ok (fill_bignum p (s.objects p))
unfolding fill_int_inf_arg
fill_int_inf_arg-bignum s p space large h t = rw large (rw h (rw t refl))
