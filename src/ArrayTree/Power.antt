-- ===== src/ArrayTree/Power.antt =====
-- The loop of `ipow` (runtime/gc/umarray-allocate.c).
use native.Mathlib.Nat.{pow-zero, pow-suc, mul-pos, mul_comm}
use native.Mathlib.Decide.{dec_le}
use rtmlton.Prelude.{
  ℕ, zero, suc, ◌+◌, ◌*◌, ◌/◌, ◌%◌, ◌^◌, ◌≤◌, ◌<◌, ◌≡◌, arith, ◌==◌, Bool-cases, inl, inr, refl,
  sym, ap, ◌∙◌, false,
}
use rtmlton.Prelude.Outcome.{ok}
use rtmlton.ArrayTree.{int_product, ipow_loop, ipow}

pow-square : (b n : ℕ) → (b * b) ^ n ≡ b ^ (n + n)
pow-square b zero = rw (pow-zero b) (pow-zero (b * b))
pow-square b (suc n) =
    grind (arith, pow-square b n, pow-suc (b * b) n, pow-suc b (n + suc n), pow-suc b (n + n))

-- one step of squaring: `b ^ n` from `(b * b) ^ (n / 2)`
step_odd : (b n r : ℕ) → n % 2 ≡ 1 → (r * b) * (b * b) ^ (n / 2) ≡ r * b ^ n
step_odd b n r odd = grind (arith, pow-square b (n / 2), pow-suc b (n / 2 + n / 2))

step_even : (b n r : ℕ) → n % 2 ≡ 0 → r * (b * b) ^ (n / 2) ≡ r * b ^ n
step_even b n r even = grind (arith, pow-square b (n / 2))

pow_pos : (b n : ℕ) → 0 < b → 0 < b ^ n
pow_pos b zero pos = rw (pow-zero b) (omega arith)
pow_pos b (suc n) pos = rw (pow-suc b n) (mul-pos (pow_pos b n pos) pos)

le-mul : (a x : ℕ) → 0 < x → a ≤ a * x
le-mul a zero pos = absurd (omega arith)
le-mul a (suc y) pos = grind arith

-- `b * b` is at most `b ^ n`, for two factors or more.
square_small : (b n : ℕ) → 0 < b → 2 ≤ n → b * b ≤ b ^ n
square_small b zero pos two = absurd (omega arith)
square_small b (suc zero) pos two = absurd (omega arith)
square_small b (suc (suc n)) pos two =
    let e : b ^ suc (suc n) ≡ b * b * b ^ n = grind (arith, pow-suc b (suc n), pow-suc b n) in
    rw e (le-mul (b * b) (b ^ n) (pow_pos b n pos))

pow-one : (b : ℕ) → b ^ 1 ≡ b
pow-one b = grind (arith, pow-suc b 0, pow-zero b)

product-ok : (a b : ℕ) → a * b < 2 ^ 31 → int_product a b ≡ ok (a * b)
product-ok a b small = ground (arith, small)

-- One round of the loop, for more than one factor.
round-ok :
    (fuel b n r : ℕ)
    → 0 < b
    → 0 < r
    → 2 ≤ n
    → r * b ^ n < 2 ^ 31
    → (r' : ℕ) × (0 < r')
      × (r' * (b * b) ^ (n / 2) ≡ r * b ^ n)
      × (ipow_loop (suc fuel) b n r ≡ ipow_loop fuel (b * b) (n / 2) r')
unfolding ipow_loop
round-ok fuel b n r posb posr two small =
    let squares : b * b < 2 ^ 31 =
      omega (arith, square_small b n posb two, le-mul (b ^ n) r posr, mul_comm r (b ^ n)) in
    let half : (n / 2 == 0) ≡ false = ground (arith, two) in
    elim (Bool-cases (n % 2 == 1)) [
      | inl odd ↦
          let e = step_odd b n r (ground (arith, odd)) in
          let low : r * b < 2 ^ 31 = omega (
            arith,
            le-mul (r * b) ((b * b) ^ (n / 2)) (pow_pos (b * b) (n / 2) (mul-pos posb posb)),
            e,
          ) in
          (
            r * b,
            mul-pos posr posb,
            e,
            rw odd (rw (product-ok r b low) (rw half (rw (product-ok b b squares) refl))),
          )
      | inr even ↦ (
        r,
        posr,
        step_even b n r (ground (arith, even)),
        rw even (rw half (rw (product-ok b b squares) refl)),
      )
    ]

ipow_loop-pow :
    (fuel b n r : ℕ)
    → n ≤ fuel
    → 0 < n
    → 0 < b
    → 0 < r
    → r * b ^ n < 2 ^ 31
    → ipow_loop fuel b n r ≡ ok (r * b ^ n)
unfolding ipow_loop
ipow_loop-pow zero b n r f pos posb posr small = absurd (omega arith)
ipow_loop-pow (suc fuel) b n r f pos posb posr small = elim (dec_le n 1) [
  | yes few ↦
      let one : n ≡ 1 = omega arith in
      let e : r * b ^ n ≡ r * b = ap (λ k. r * b ^ k) one ∙ ap (λ k. r * k) (pow-one b) in
      rw (one, pow-one b) (rw (product-ok r b (rw (sym e) small)) refl)
  | no more ↦
      let (r', pos', e, step) = round-ok fuel b n r posb posr (omega arith) small in
      step
      ∙ ipow_loop-pow fuel (b * b) (n / 2) r' (omega arith) (omega arith) (mul-pos posb posb) pos'
          (omega (arith, e, small))
      ∙ ap ok e
]

-- `ipow`, which squares the base in a loop, computes the power of a base that is not 0, and no
-- product overflows, if the power fits an `int`.
pub ipow-pow : (b n : ℕ) → 0 < b → b ^ n < 2 ^ 31 → ipow b n ≡ ok (b ^ n)
unfolding ipow
ipow-pow b n pos small = elim (Bool-cases (n == 0)) [
  | inl z ↦ let e : n ≡ 0 = ground (arith, z) in rw e (rw (pow-zero b) refl)
  | inr nz ↦
      let one : 1 * b ^ n ≡ b ^ n = omega arith in
      rw nz (
        ipow_loop-pow n b n 1 (omega arith) (ground (arith, nz)) pos (omega arith) (rw one small)
        ∙ ap ok one)
]
