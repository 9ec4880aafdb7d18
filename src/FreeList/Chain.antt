-- ===== src/FreeList/Chain.antt =====
-- The lists of free chunks as chains of links in memory.
use rtmlton.Prelude.{
  ap, ◌∙◌, ◌≡◌, refl, ◌≢◌, List, [], ◌∷◌, ◌++◌, arith, length, ◌∈◌, Distinct, last, last-mem,
}
use rtmlton.Chunk.{Address, um_empty, Memory}
use rtmlton.State.{ChunkList, no_chunks}

-- From `p` the links lead through the chunks `xs` to NULL.
abbrev pub Chain : Memory → Address → List Address → Type 0
Chain m p [] = p ≡ 0
Chain m p (x ∷ xs) = (p ≡ x) × (x ≢ 0) × Chain m (m x).next_free xs

-- `q` lists the chunks `xs`, each once and each of type UM_EMPTY, and counts them.
pub record IsList (m : Memory) (q : ChunkList) (xs : List Address) : Type 0 where
  pub chain : Chain m q.head xs
  pub tail_last : q.tail ≡ last xs
  pub count : q.chunks ≡ length xs
  pub distinct : Distinct xs
  pub empty : (a : Address) → a ∈ xs → (m a).chunk_type ≡ um_empty

pub Chain-same :
    (m m' : Memory) (p : Address) (xs : List Address)
    → ((a : Address) → a ∈ xs → (m' a).next_free ≡ (m a).next_free)
    → Chain m p xs
    → Chain m' p xs
Chain-same m m' p [] same c = c
Chain-same m m' p (x ∷ xs) same c =
    (c.0, c.1, rw (same x (ground arith)) (Chain-same m m' _ xs (λ a i. same a (ground arith)) c.2))

-- Two chains are joined by a write to the last link of the first.
pub Chain-join :
    (m m' : Memory) (p q x : Address) (xs ys : List Address)
    → ((a : Address) → a ∈ x ∷ xs → a ≢ last (x ∷ xs) → (m' a).next_free ≡ (m a).next_free)
    → (m' (last (x ∷ xs))).next_free ≡ q
    → Distinct (x ∷ xs)
    → Chain m p (x ∷ xs)
    → Chain m' q ys
    → Chain m' p (x ∷ xs ++ ys)
Chain-join m m' p q x [] ys same link d c k = (c.0, c.1, rw link k)
Chain-join m m' p q x (y ∷ xs) ys same link d c k = (
  c.0,
  c.1,
  rw (same x (ground arith) (ground (arith, last-mem y xs)))
      (Chain-join m m' _ q y xs ys (λ a i n. same a (ground arith) n) link d.1 c.2 k),
)

pub Chain-ne_null :
    (m : Memory) (p : Address) (xs : List Address) (a : Address) → Chain m p xs → a ∈ xs → a ≢ 0
Chain-ne_null m p [] a c i = cc
Chain-ne_null m p (x ∷ xs) a c i = ground (arith, Chain-ne_null m (m x).next_free xs a c.2)

pub IsList-empty : (m : Memory) → IsList m no_chunks []
IsList-empty m = record {
  chain = refl;
  tail_last = refl;
  count = refl;
  distinct = tt;
  empty = λ a i. cc;
}

-- A list is untouched by writes elsewhere.
pub IsList-same :
    (m m' : Memory) (q : ChunkList) (xs : List Address)
    → ((a : Address) → a ∈ xs → m' a ≡ m a)
    → IsList m q xs
    → IsList m' q xs
IsList-same m m' q xs same l = record {
  chain = Chain-same m m' q.head xs (λ a i. ap (λ c. c.next_free) (same a i)) l.chain;
  tail_last = l.tail_last;
  count = l.count;
  distinct = l.distinct;
  empty = λ a i. ap (λ c. c.chunk_type) (same a i) ∙ l.empty a i;
}
