-- ===== src/StackGrowth/Links.antt =====
-- The loops of `maybe_growstack` (runtime/gc/garbage-collection.c), on linked chunks.
use mathlib.Core.Path.{subst}
use rtmlton.Prelude.{
  ℕ, zero, suc, ◌+◌, ◌≤◌, ◌<◌, ◌≡◌, ◌≢◌, refl, sym, ap, ◌∙◌, true, false, ◌==◌, ==_refl,
  if◌then◌else◌, List, [], ◌∷◌, ◌++◌, ◌∈◌, ◌∉◌, has-append, Distinct, last, last-mem, length, arith,
}
use rtmlton.Prelude.Outcome.{ok}
use rtmlton.Chunk.{Address, Memory}
use rtmlton.Allocate.Link.{Leads}
use rtmlton.StackGrowth.{Ratios, last_chunk, joined, kept_chunk, trimmed, cut}

-- Two parts of a chain.
pub Leads-append :
    (m : Memory) (p q e : Address) (xs ys : List Address)
    → Leads m p xs q
    → Leads m q ys e
    → Leads m p (xs ++ ys) e
Leads-append m p q e [] ys h k = rw h k
Leads-append m p q e (x ∷ xs) ys h k = (h.0, Leads-append m (m x).next_chunk q e xs ys h.1 k)

not_null : (x : Address) (xs : List Address) → 0 ∉ x ∷ xs → (x == 0) ≡ false
not_null x xs h = ground arith

pub last_chunk-last :
    (m : Memory) (p x : Address) (xs : List Address) (fuel : ℕ)
    → Leads m p (x ∷ xs) 0
    → 0 ∉ x ∷ xs
    → length (x ∷ xs) ≤ fuel
    → last_chunk fuel m p ≡ ok (last (x ∷ xs))
unfolding last_chunk
last_chunk-last m p x xs zero h ne small = absurd (omega arith)
last_chunk-last m p x [] (suc fuel) h ne small =
    let here : (p == 0) ≡ false = rw (h.0) (not_null x [] ne) in
    let end : ((m p).next_chunk == 0) ≡ true =
      ap (λ v. (m v).next_chunk == 0) h.0 ∙ ap (λ v. v == 0) h.1 in
    rw (last_chunk, here, end) (ap ok h.0)
last_chunk-last m p x (y ∷ ys) (suc fuel) h ne small =
    let here : (p == 0) ≡ false = rw (h.0) (not_null x (y ∷ ys) ne) in
    let rest : 0 ∉ y ∷ ys = ground (arith, ne) in
    let next : (m p).next_chunk ≡ (m x).next_chunk = ap (λ v. (m v).next_chunk) h.0 in
    let more : ((m p).next_chunk == 0) ≡ false =
      ap (λ v. v == 0) (next ∙ h.1.0) ∙ not_null y ys rest in
    rw (last_chunk, here, more)
      (ap (last_chunk fuel m) next
        ∙ last_chunk-last m (m x).next_chunk y ys fuel h.1 rest (omega (arith, small)))

module _ (m : Memory) (c d : Address) where
  joined-next :
      c ≢ d
      → (a : Address) → ((joined c d m) a).next_chunk ≡ (if a == c then d else (m a).next_chunk)
  joined-next ne a = ground (arith, ne)

  -- A chain that ends with `c` leads to `d` then.
  pub joined-Leads :
      (p x : Address) (xs : List Address)
      → Leads m p (x ∷ xs) 0
      → last (x ∷ xs) ≡ c
      → Distinct (x ∷ xs)
      → d ∉ x ∷ xs
      → Leads (joined c d m) p (x ∷ xs) d
  joined-Leads p x [] h e dist out =
      let ne : c ≢ d = λ k. ground (arith, out, e, k) in (h.0, joined-next ne x ∙ ground (arith, e))
  joined-Leads p x (y ∷ ys) h e dist out =
      let rest : d ∉ y ∷ ys = ground (arith, out) in
      let there : c ∈ y ∷ ys = subst (λ v. v ∈ y ∷ ys) e (last-mem y ys) in
      let ne : c ≢ d = λ k. ground (arith, there, rest, k) in
      let other : (x == c) ≡ false = ground (arith, there, dist.0) in
      let same : ((joined c d m) x).next_chunk ≡ (m x).next_chunk =
        joined-next ne x ∙ rw other refl in
      (h.0, rw same (joined-Leads (m x).next_chunk y ys h.1 e dist.1 rest))

-- The loop keeps as many chunks as its test says, from the `i`-th on.
pub kept_chunk-last :
    (r : Ratios) (size : ℕ) (m : Memory) (p c : Address) (xs ys : List Address) (fuel i : ℕ)
    → Leads m p (xs ++ c ∷ ys) 0
    → 0 ∉ xs ++ c ∷ ys
    → ((j : ℕ) → i ≤ j → j < i + length xs → r.keeps j size ≡ true)
    → r.keeps (i + length xs) size ≡ false
    → length xs < fuel
    → kept_chunk r fuel size i m p ≡ ok (i + length xs, c)
unfolding kept_chunk
kept_chunk-last r size m p c xs ys zero i h ne keep stop small = absurd (omega arith)
kept_chunk-last r size m p c [] ys (suc fuel) i h ne keep stop small =
    let e : i + 0 ≡ i = omega arith in
    rw (kept_chunk, ap (λ v. r.keeps v size) (sym e) ∙ stop)
      (ap (λ v. ok (v, p)) (sym e) ∙ ap (λ v. ok (i + 0, v)) h.0)
kept_chunk-last r size m p c (x ∷ xs) ys (suc fuel) i h ne keep stop small =
    let here : (p == 0) ≡ false = rw (h.0) (ground (arith, ne)) in
    let e : i + 1 + length xs ≡ i + length (x ∷ xs) = omega arith in
    let next : (m p).next_chunk ≡ (m x).next_chunk = ap (λ v. (m v).next_chunk) h.0 in
    rw (kept_chunk, keep i (omega arith) (omega arith), here)
      (ap (kept_chunk r fuel size (i + 1) m) next
        ∙ kept_chunk-last r size m (m x).next_chunk c xs ys fuel (i + 1) h.1 (ground (arith, ne))
            (λ j lo hi. keep j (omega arith) (omega arith)) (ap (λ v. r.keeps v size) e ∙ stop)
            (omega arith)
        ∙ ap (λ v. ok (v, c)) e)

module _ (m : Memory) (c : Address) where
  trimmed-next :
      (a : Address) → ((trimmed c m) a).next_chunk ≡ (if a == c then 0 else (m a).next_chunk)
  trimmed-next a = ground arith

  -- The chain ends with `c` then.
  pub trimmed-Leads :
      (p : Address) (xs ys : List Address)
      → Leads m p (xs ++ c ∷ ys) 0
      → Distinct (xs ++ c ∷ ys)
      → Leads (trimmed c m) p (xs ++ c ∷ []) 0
  trimmed-Leads p [] ys h dist = (h.0, trimmed-next c ∙ rw (==_refl c) refl)
  trimmed-Leads p (x ∷ xs) ys h dist =
      let other : (x == c) ≡ false = ground (arith, dist.0, has-append x xs (c ∷ ys)) in
      let same : ((trimmed c m) x).next_chunk ≡ (m x).next_chunk = trimmed-next x ∙ rw other refl in
      (h.0, rw same (trimmed-Leads (m x).next_chunk xs ys h.1 dist.1))

  -- Behind `c` there is another chunk.
  pub cut-trimmed :
      (p d : Address) (xs ys : List Address)
      → Leads m p (xs ++ c ∷ d ∷ ys) 0
      → 0 ∉ xs ++ c ∷ d ∷ ys
      → cut c m ≡ ok (trimmed c m)
  unfolding cut
  cut-trimmed p d [] ys h ne = ground (arith, h.1.0, ne)
  cut-trimmed p d (x ∷ xs) ys h ne = cut-trimmed (m x).next_chunk d xs ys h.1 (ground (arith, ne))
