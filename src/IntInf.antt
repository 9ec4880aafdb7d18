-- ===== src/IntInf.antt =====
-- Integers of arbitrary precision (runtime/gc/int-inf.c, int-inf.h): a word is a small integer or
-- points to an array of limbs, and the operations hand both to GMP as an `__mpz_struct`. The
-- operations of GMP are parameters. Limbs and words have 32 bits, so `LIMBS_PER_OBJPTR` is 1.
pub mod Words
pub mod Round
pub mod Finish
pub mod Ops
use rtmlton.Prelude.{
  ℕ, zero, suc, ◌+◌, ◌-◌, ◌*◌, ◌/◌, ◌%◌, ◌^◌, Bool, true, false, not, ◌&&◌, ◌||◌, ltb, leb, ◌==◌,
  if◌then◌else◌,
}
use rtmlton.Prelude.Outcome.{Outcome, ok, die, fault, ◌>>=◌}
use rtmlton.Chunk.{Address}

pub data ℤ : Type 0 where
  pos : ℕ → ℤ
  negsuc : ℕ → ℤ

abbrev pub signed : Bool → ℕ → ℤ
signed false n = pos n
signed true zero = pos 0
signed true (suc n) = negsuc n

abbrev pub is_neg : ℤ → Bool
is_neg (pos n) = false
is_neg (negsuc n) = true

abbrev pub abs : ℤ → ℕ
abs (pos n) = n
abs (negsuc n) = suc n

abbrev pub negate : ℤ → ℤ
negate (pos n) = signed true n
negate (negsuc n) = pos (suc n)

-- the cast of 32 bits to `int`
abbrev pub int32 : ℕ → ℤ
int32 n = if ltb n (2 ^ 31) then pos n else negsuc (2 ^ 32 - 1 - n)

-- an array of limbs, and its address
pub record Limbs : Type 0 where
  pub at : Address
  pub limb : ℕ → ℕ

-- `__mpz_struct`; `_mp_d` is the address `mp_d_at`, and `mp_d i` is the limb `_mp_d[i]`
pub record Mpz : Type 0 where
  pub mp_alloc : ℤ
  pub mp_size : ℤ
  pub mp_d : ℕ → ℕ
  pub mp_d_at : Address

-- `struct GC_intInf`
pub record Bignum : Type 0 where
  pub counter : ℕ
  pub length : ℕ
  pub header : ℕ
  pub isneg : ℕ
  pub limbs : ℕ → ℕ

-- The part of `struct GC_state` that the operations work on. A bignum is named by the address of its
-- field `obj`.
pub record Bignums : Type 0 where
  pub objects : Address → Bignum
  pub inf_frontier : Address
  pub limit_plus_slop : Address

-- GC_INTINF_HEADER, that is GC_WORD32_VECTOR_HEADER
abbrev pub intinf_header : ℕ
intinf_header = 9

abbrev pub store : Bignums → Address → Bignum → Bignums
store s p b = record s { objects = λ q. if p == q then b else s.objects q }

-- `isSmall` and `areSmall`
abbrev pub is_small : ℕ → Bool
is_small arg = arg % 2 == 1

abbrev pub are_small : ℕ → ℕ → Bool
are_small arg1 arg2 = is_small arg1 && is_small arg2

-- `toBignum`
unfoldable pub to_bignum : Bignums → ℕ → Outcome Bignum
to_bignum s arg =
    if is_small arg
    then fault
    else if not ((s.objects arg).header == intinf_header)
    then fault
    else ok (s.objects arg)

-- the assertion on the highest limb
abbrev pub is_trimmed : Mpz → Bool
is_trimmed r = abs r.mp_size == 0 || not (r.mp_d (abs r.mp_size - 1) == 0)

-- the magnitude of a small integer
abbrev pub small_limb : ℕ → ℕ
small_limb arg = if leb (2 ^ 31) arg then (2 ^ 32 - (arg / 2 + 2 ^ 31)) % 2 ^ 32 else arg / 2

-- The branch of `fillIntInfArg` for a small integer; `space` holds what the caller's array holds.
unfoldable pub fill_small : ℕ → Limbs → Mpz
fill_small arg space =
    if arg == 1
    then record { mp_alloc = pos 2; mp_size = pos 0; mp_d = space.limb; mp_d_at = space.at }
    else record {
      mp_alloc = pos 2;
      mp_size = signed (leb (2 ^ 31) arg) 1;
      mp_d = λ i. if i == 0 then small_limb arg else space.limb i;
      mp_d_at = space.at;
    }

-- The branch for a bignum, whose field `obj` is at `p`.
unfoldable pub fill_bignum : Address → Bignum → Mpz
fill_bignum p b = record {
  mp_alloc = int32 ((b.length + (2 ^ 32 - 1)) % 2 ^ 32);
  mp_size =
      let alloc = int32 ((b.length + (2 ^ 32 - 1)) % 2 ^ 32) in
      if b.isneg == 0 then alloc else negate alloc;
  mp_d = b.limbs;
  mp_d_at = p + 4;
}

unfoldable pub fill_int_inf_arg : Bignums → ℕ → Limbs → Outcome Mpz
unfolding fill_small fill_bignum to_bignum
fill_int_inf_arg s arg space = do
  r ←
      (if is_small arg
        then ok (fill_small arg space)
        else (do bp ← to_bignum s arg; ok (fill_bignum arg bp)))
  (if is_trimmed r then ok r else fault)

-- `initIntInfRes`: the limbs of the result lie behind the frontier.
unfoldable pub init_int_inf_res : Bignums → Mpz
init_int_inf_res s =
    let nlimbs = (s.limit_plus_slop + 2 ^ 32 - (s.inf_frontier + 16)) % 2 ^ 32 / 4 in
    record {
      mp_alloc = pos (if ltb nlimbs (2 ^ 31 - 1) then nlimbs else 2 ^ 31 - 1);
      mp_size = pos 0;
      mp_d = (s.objects (s.inf_frontier + 12)).limbs;
      mp_d_at = s.inf_frontier + 16;
    }

-- `val`, as it is compared, and `ans`
abbrev pub small_value : Bool → ℕ → ℕ
small_value neg val = if neg then (val + (2 ^ 32 - 1)) % 2 ^ 32 else val

abbrev pub small_word : Bool → ℕ → ℕ
small_word neg val = (if neg then (2 ^ 32 - val) % 2 ^ 32 else val) * 2 % 2 ^ 32 + 1

-- The object of `bp`, which `finiIntInfRes` finds in front of the limbs of the result.
abbrev pub object_of : Mpz → Address
object_of res = res.mp_d_at - 4

-- the object with the sign and the limbs of the result
abbrev pub with_result : Bignums → Mpz → Bignums
with_result s res =
    let p = object_of res in
    store s p
      (record (s.objects p) { isneg = if is_neg res.mp_size then 1 else 0; limbs = res.mp_d })

-- the end of `finiIntInfRes`, for a result that stays in the heap, with its object at `p`
unfoldable pub keep_bignum : Bignums → Address → ℕ → ℕ × Bignums
keep_bignum s p size = (
  p,
  record (store s p (record (s.objects p) {
    counter = 0;
    length = (size + 1) % 2 ^ 32;
    header = intinf_header;
  })) { inf_frontier = p + 4 + 4 * size },
)

-- `finiIntInfRes`
unfoldable pub fini_int_inf_res : Bignums → Mpz → Outcome (ℕ × Bignums)
unfolding keep_bignum
fini_int_inf_res s res =
    let size = abs res.mp_size in
    let neg = is_neg res.mp_size in
    let s' = with_result s res in
    if not (is_trimmed res)
    then fault
    else if size == 0
    then ok (1, s')
    else if leb size 1 && ltb (small_value neg (res.mp_d 0)) (2 ^ 30)
    then ok (small_word neg (res.mp_d 0), s')
    else ok (keep_bignum s' (object_of res) size)

-- `IntInf_binop`; `lhsspace` and `rhsspace` are arrays that are not initialised.
unfoldable pub int_inf_binop :
    (Mpz → Mpz → Mpz → Mpz) → Limbs → Limbs → Bignums → ℕ → ℕ → Outcome (ℕ × Bignums)
unfolding fill_int_inf_arg fini_int_inf_res
int_inf_binop binop lhsspace rhsspace s lhs rhs = do
  lhsmpz ← fill_int_inf_arg s lhs lhsspace
  rhsmpz ← fill_int_inf_arg s rhs rhsspace
  fini_int_inf_res s (binop (init_int_inf_res s) lhsmpz rhsmpz)

unfoldable pub int_inf_unop : (Mpz → Mpz → Mpz) → Limbs → Bignums → ℕ → Outcome (ℕ × Bignums)
unfolding fill_int_inf_arg fini_int_inf_res
int_inf_unop unop argspace s arg = do
  argmpz ← fill_int_inf_arg s arg argspace
  fini_int_inf_res s (unop (init_int_inf_res s) argmpz)

-- `IntInf_shop`; an `unsigned long` has 32 bits.
unfoldable pub int_inf_shop :
    (Mpz → Mpz → ℕ → Mpz) → Limbs → Bignums → ℕ → ℕ → Outcome (ℕ × Bignums)
unfolding fill_int_inf_arg fini_int_inf_res
int_inf_shop shop argspace s arg shift = do
  argmpz ← fill_int_inf_arg s arg argspace
  fini_int_inf_res s (shop (init_int_inf_res s) argmpz shift)

-- the sign of the result of a comparison
abbrev pub sign : ℤ → ℤ
sign (pos zero) = pos 0
sign (pos (suc n)) = pos 1
sign (negsuc n) = negsuc 0

-- `IntInf_cmpop`
unfoldable pub int_inf_cmpop : (Mpz → Mpz → ℤ) → Limbs → Limbs → Bignums → ℕ → ℕ → Outcome ℤ
unfolding fill_int_inf_arg
int_inf_cmpop cmpop lhsspace rhsspace s lhs rhs = do
  lhsmpz ← fill_int_inf_arg s lhs lhsspace
  rhsmpz ← fill_int_inf_arg s rhs rhsspace
  ok (sign (cmpop lhsmpz rhsmpz))
