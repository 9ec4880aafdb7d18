-- ===== src/IntInf/Words.antt =====
-- The words of small integers (runtime/gc/int-inf.c).
use rtmlton.Prelude.{
  ℕ, ◌%◌, ◌^◌, ◌<◌, ◌≡◌, ◌≢◌, true, false, Bool, Bool-cases, inl, inr, leb, arith,
}
use rtmlton.IntInf.{small_limb, small_word, small_value, is_small}

module _ (arg : ℕ) (small : arg % 2 ≡ 1) (w32 : arg < 2 ^ 32) where
  pub small_word-limb : arg ≢ 1 → small_word (leb (2 ^ 31) arg) (small_limb arg) ≡ arg
  small_word-limb ne = ground arith

  pub small_limb-fits : arg ≢ 1 → small_value (leb (2 ^ 31) arg) (small_limb arg) < 2 ^ 30
  small_limb-fits ne = ground arith

  pub small_limb-ne_zero : arg ≢ 1 → small_limb arg ≢ 0
  small_limb-ne_zero ne = ground arith

-- The word of a magnitude that fits.
pub word_small : (neg : Bool) (val : ℕ) → is_small (small_word neg val) ≡ true
word_small neg val = elim (Bool-cases neg) [
  | inl e ↦ rw e (ground arith)
  | inr e ↦ rw e (ground arith)
]

pub word_ne_one :
    (neg : Bool) (val : ℕ)
    → val ≢ 0
    → val < 2 ^ 32
    → small_value neg val < 2 ^ 30
    → small_word neg val ≢ 1
word_ne_one true val nonzero w32 fits = λ e. absurd (omega arith)
word_ne_one false val nonzero w32 fits = λ e. absurd (omega arith)

pub word_sign :
    (neg : Bool) (val : ℕ)
    → val ≢ 0
    → val < 2 ^ 32
    → small_value neg val < 2 ^ 30
    → leb (2 ^ 31) (small_word neg val) ≡ neg
word_sign true val nonzero w32 fits = ground arith
word_sign false val nonzero w32 fits = ground arith

pub limb-word :
    (neg : Bool) (val : ℕ)
    → val ≢ 0
    → val < 2 ^ 32
    → small_value neg val < 2 ^ 30
    → small_limb (small_word neg val) ≡ val
limb-word true val nonzero w32 fits = ground arith
limb-word false val nonzero w32 fits = ground arith
