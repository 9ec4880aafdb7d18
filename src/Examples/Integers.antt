-- ===== src/Examples/Integers.antt =====
-- A sum of small integers that is too large for a word.
use rtmlton.Prelude.{
  ℕ, ◌^◌, ◌-◌, ap, ◌≡◌, ◌≢◌, refl, ◌+◌, ◌*◌, arith, ◌<◌, ◌≤◌, ◌==◌, false, if◌then◌else◌,
}
use rtmlton.Prelude.Outcome.{ok}
use rtmlton.Chunk.{Address}
use rtmlton.IntInf.{
  pos, abs, Limbs, init_int_inf_res, Mpz, Bignum, Bignums, fill_int_inf_arg, fini_int_inf_res,
  int_inf_binop,
}
use rtmlton.IntInf.Round.{IsNumber}
use rtmlton.IntInf.Ops.{
  Represents, IsOperation, value, int_inf_binop-Represents, fini_int_inf_res-small,
}

abbrev no_bignum : Bignum
no_bignum = record { counter = 0; length = 0; header = 0; isneg = 0; limbs = λ i. 0 }

abbrev no_bignums : Bignums
no_bignums = record { objects = λ q. no_bignum; inf_frontier = 4000; limit_plus_slop = 4096 }

abbrev no_limbs : Limbs
no_limbs = record { at = 8000; limb = λ i. 0 }

-- the largest small integer, and 1
abbrev largest : ℕ
largest = 2147483647

abbrev word_one : ℕ
word_one = 3

limb-IsNumber :
    (r : Mpz) → r.mp_size ≡ pos 1 → ((i : ℕ) → r.mp_d i < 2 ^ 32) → r.mp_d 0 ≢ 0 → IsNumber r
limb-IsNumber r one small ne =
    let some : (r.mp_d 0 == 0) ≡ false = ground (arith, ne) in
    record { trimmed = rw one (rw some refl); limbs = λ i k. small i; size = rw one (omega arith) }

largest-Represents : Represents no_bignums largest (pos (2 ^ 30 - 1))
unfolding fill_int_inf_arg
largest-Represents space = (
  record {
    mp_alloc = pos 2;
    mp_size = pos 1;
    mp_d = λ i. if i == 0 then 2 ^ 30 - 1 else space.limb i;
    mp_d_at = space.at;
  },
  refl,
  record {
    trimmed = refl;
    limbs = λ i k. let e : i ≡ 0 = omega (arith, k) in rw e (omega arith);
    size = omega arith;
  },
  refl,
)

-- the sum of two integers that are not negative, when one limb is enough for it
abbrev add_limb : Mpz → Mpz → Mpz → Mpz
add_limb res a b = record {
  mp_alloc = res.mp_alloc;
  mp_size = pos 1;
  mp_d = λ i. abs (value a) + abs (value b);
  mp_d_at = res.mp_d_at;
}

one-Represents : Represents no_bignums word_one (pos 1)
unfolding fill_int_inf_arg
one-Represents space = (
  record {
    mp_alloc = pos 2;
    mp_size = pos 1;
    mp_d = λ i. if i == 0 then 1 else space.limb i;
    mp_d_at = space.at;
  },
  refl,
  record {
    trimmed = refl;
    limbs = λ i k. let e : i ≡ 0 = omega (arith, k) in rw e (omega arith);
    size = omega arith;
  },
  refl,
)

add_limb-IsOperation : IsOperation add_limb (pos (2 ^ 30 - 1)) (pos 1) (pos (2 ^ 30)) 1
add_limb-IsOperation res a b ha hb room =
    let sum : abs (value a) + abs (value b) ≡ 2 ^ 30 = rw (ha.1, hb.1) refl in
    (
      (
        limb-IsNumber (add_limb res a b) refl (λ i. rw sum (omega arith)) (rw sum (omega arith)),
        ap (λ n. pos (n * 1 + 0)) sum,
      ),
      refl,
    )

room_for_one : 1 ≤ abs (init_int_inf_res no_bignums).mp_alloc
unfolding init_int_inf_res
room_for_one = omega arith

int_inf_binop-Represents_example :
    (p : ℕ) × (s' : Bignums) × (int_inf_binop add_limb no_limbs no_limbs no_bignums largest word_one
      ≡ ok (p, s'))
    × Represents s' p (pos (2 ^ 30))
    × ((q : Address) → q ≢ 4012 → s'.objects q ≡ no_bignum)
int_inf_binop-Represents_example =
    int_inf_binop-Represents add_limb no_limbs no_limbs no_bignums largest word_one
      (pos (2 ^ 30 - 1)) (pos 1) (pos (2 ^ 30)) 1 refl largest-Represents one-Represents
      add_limb-IsOperation room_for_one

fini_int_inf_res-small_example :
    (r : Mpz) × (u : Bignums) × (fill_int_inf_arg no_bignums largest no_limbs ≡ ok r)
    × (fini_int_inf_res no_bignums r ≡ ok (largest, u))
fini_int_inf_res-small_example =
    fini_int_inf_res-small no_bignums no_bignums largest no_limbs refl (omega arith)
