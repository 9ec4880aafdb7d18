-- ===== src/IntInf/Ops.antt =====
-- The operations on integers (runtime/gc/int-inf.c), as words that stand for integers.
use rtmlton.Prelude.{
  ℕ, zero, suc, ◌+◌, ◌-◌, ◌*◌, ◌%◌, ◌^◌, ◌≤◌, ◌<◌, ◌≡◌, ◌≢◌, refl, sym, ap, ◌∙◌, true, false, leb,
  ◌==◌, if◌then◌else◌, arith, inl, inr, Bool-cases,
}
use rtmlton.Prelude.Outcome.{ok}
use rtmlton.Chunk.{Address}
use rtmlton.IntInf.{
  Limbs, object_of, ℤ, pos, signed, is_neg, abs, Mpz, Bignums, is_small, is_trimmed, small_limb,
  fill_int_inf_arg, init_int_inf_res, with_result, fini_int_inf_res, int_inf_binop,
}
use rtmlton.IntInf.Words.{small_word-limb, small_limb-fits, small_limb-ne_zero}
use rtmlton.IntInf.Round.{
  IsNumber, SameNumber, fill_int_inf_arg-word, fini_int_inf_res-word, abs-signed, is_neg-signed,
}
use rtmlton.IntInf.Finish.{Finished, fini_int_inf_res-Finished}

-- `n` limbs, the lowest first, as one number
abbrev pub magnitude : ℕ → (ℕ → ℕ) → ℕ
magnitude zero d = 0
magnitude (suc n) d = d n * 2 ^ (32 * n) + magnitude n d

abbrev pub value : Mpz → ℤ
value r = signed (is_neg r.mp_size) (magnitude (abs r.mp_size) r.mp_d)

magnitude-same :
    (n : ℕ) (d e : ℕ → ℕ) → ((i : ℕ) → i < n → e i ≡ d i) → magnitude n e ≡ magnitude n d
magnitude-same zero d e same = refl
magnitude-same (suc n) d e same =
    rw (same n (omega arith), magnitude-same n d e (λ i small. same i (omega arith))) refl

value-same : (r r' : Mpz) → SameNumber r r' → value r' ≡ value r
value-same r r' h =
    rw (h.size) (
      ap (λ n. signed (is_neg r.mp_size) n) (magnitude-same (abs r.mp_size) r.mp_d r'.mp_d h.limbs))

-- What `is_trimmed` reads of two numbers that are the same is the same.
trimmed-same : (r r' : Mpz) → SameNumber r r' → is_trimmed r' ≡ is_trimmed r
trimmed-same r r' h = elim (Bool-cases (abs r.mp_size == 0)) [
  | inl z ↦ rw (h.size) (rw z refl)
  | inr n ↦
      let top : r'.mp_d (abs r.mp_size - 1) ≡ r.mp_d (abs r.mp_size - 1) =
        h.limbs (abs r.mp_size - 1) (ground (arith, n)) in
      rw (h.size) (rw top refl)
]

SameNumber-IsNumber : (r r' : Mpz) → SameNumber r r' → IsNumber r → IsNumber r'
SameNumber-IsNumber r r' h num = record {
  trimmed = trimmed-same r r' h ∙ num.trimmed;
  limbs = λ i small.
      let small' : i < abs r.mp_size = rw (sym h.size) small in
      rw (h.limbs i small') (num.limbs i small');
  size = rw (h.size) num.size;
}

-- The word `p` stands for the integer `z` in the heap `s`, whatever the caller's array holds.
abbrev pub Represents : Bignums → ℕ → ℤ → Type 0
Represents s p z =
    (space : Limbs) → (r : Mpz) × (fill_int_inf_arg s p space ≡ ok r) × IsNumber r × (value r ≡ z)

-- what GMP documents of an operation that makes `z`
abbrev pub IsResult : Mpz → ℤ → Type 0
IsResult r z = IsNumber r × (value r ≡ z)

Finished-Represents :
    (s : Bignums) (r : Mpz) (z : ℤ) (f : Finished s r) → IsResult r z → Represents f.after f.word z
Finished-Represents s r z f (num, v) space =
    let (r', fills, same) = f.filled space in
    (r', fills, SameNumber-IsNumber r r' same num, value-same r r' same ∙ v)

-- What GMP documents of an operation on integers with the values `x` and `y` that makes `z`, and needs
-- at most `need` limbs for it: with room for them in the result, it leaves them at its place.
abbrev pub IsOperation : (Mpz → Mpz → Mpz → Mpz) → ℤ → ℤ → ℤ → ℕ → Type 0
IsOperation binop x y z need =
    (res a b : Mpz)
    → IsResult a x
    → IsResult b y
    → need ≤ abs res.mp_alloc
    → IsResult (binop res a b) z × ((binop res a b).mp_d_at ≡ res.mp_d_at)

-- When two words stand for integers, the frontier is even, a GMP operation makes of any two numbers with
-- these values a number with the value `z`, and there are as many limbs behind the frontier as it needs
-- for it, `IntInf_binop` returns with its assertions true. The word that it returns stands for `z`
-- then, and no object but the one behind the frontier has changed.
pub int_inf_binop-Represents :
    (binop : Mpz → Mpz → Mpz → Mpz) (lhsspace rhsspace : Limbs) (s : Bignums) (lhs rhs : ℕ)
    (x y z : ℤ) (need : ℕ)
    → s.inf_frontier % 2 ≡ 0
    → Represents s lhs x
    → Represents s rhs y
    → IsOperation binop x y z need
    → need ≤ abs (init_int_inf_res s).mp_alloc
    → (p : ℕ) × (s' : Bignums) × (int_inf_binop binop lhsspace rhsspace s lhs rhs ≡ ok (p, s'))
      × Represents s' p z
      × ((q : Address) → q ≢ s.inf_frontier + 12 → s'.objects q ≡ s.objects q)
unfolding int_inf_binop init_int_inf_res
int_inf_binop-Represents binop lhsspace rhsspace s lhs rhs x y z need even hx hy gmp room =
    let (a, fa, na, va) = hx lhsspace in
    let (b, fb, nb, vb) = hy rhsspace in
    let r = binop (init_int_inf_res s) a b in
    let (h, place) = gmp (init_int_inf_res s) a b (na, va) (nb, vb) room in
    let here : object_of r ≡ s.inf_frontier + 12 = omega (arith, place) in
    let f = fini_int_inf_res-Finished s r h.0 (omega (arith, here, even)) in
    (
      f.word,
      f.after,
      rw (fa, fb) f.returns,
      Finished-Represents s r z f h,
      λ q ne. f.others q (λ e. ne (e ∙ here)),
    )

small_returns :
    (s t : Bignums) (arg : ℕ) (space : Limbs)
    → is_small arg ≡ true
    → arg % 2 ≡ 1
    → arg < 2 ^ 32
    → arg ≢ 1
    → small_limb arg ≢ 0
    → (r : Mpz) × (u : Bignums) × (fill_int_inf_arg s arg space ≡ ok r)
      × (fini_int_inf_res t r ≡ ok (arg, u))
small_returns s t arg space small odd w32 ne nonzero =
    let neg = leb (2 ^ 31) arg in
    let r : Mpz = record {
      mp_alloc = pos 2;
      mp_size = signed neg 1;
      mp_d = λ i. if i == 0 then small_limb arg else space.limb i;
      mp_d_at = space.at;
    } in
    let some : (small_limb arg == 0) ≡ false = ground (arith, nonzero) in
    let trimmed : is_trimmed r ≡ true = rw (abs-signed neg 1, some) refl in
    (
      r,
      with_result t r,
      fill_int_inf_arg-word s arg space small ne nonzero,
      fini_int_inf_res-word t r trimmed (abs-signed neg 1)
            (rw (is_neg-signed neg) (small_limb-fits arg odd w32 ne))
          ∙ rw (is_neg-signed neg) (rw (small_word-limb arg odd w32 ne) refl),
    )

-- A word of a small integer is what `finiIntInfRes` returns for the number that `fillIntInfArg` reads in
-- it.
pub fini_int_inf_res-small :
    (s t : Bignums) (arg : ℕ) (space : Limbs)
    → is_small arg ≡ true
    → arg < 2 ^ 32
    → (r : Mpz) × (u : Bignums) × (fill_int_inf_arg s arg space ≡ ok r)
      × (fini_int_inf_res t r ≡ ok (arg, u))
unfolding fill_int_inf_arg fini_int_inf_res
fini_int_inf_res-small s t arg space small w32 = elim (Bool-cases (arg == 1)) [
  | inl e ↦ (
    record { mp_alloc = pos 2; mp_size = pos 0; mp_d = space.limb; mp_d_at = space.at },
    with_result t
        (record { mp_alloc = pos 2; mp_size = pos 0; mp_d = space.limb; mp_d_at = space.at }),
    rw (small, e) refl,
    let one : arg ≡ 1 = ground (arith, e) in rw one refl,
  )
  | inr e ↦
      let odd : arg % 2 ≡ 1 = ground (arith, small) in
      let ne : arg ≢ 1 = ground (arith, e) in
      let nonzero = small_limb-ne_zero arg odd w32 ne in
      small_returns s t arg space small odd w32 ne nonzero
]
