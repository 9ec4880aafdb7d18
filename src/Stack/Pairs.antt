-- ===== src/Stack/Pairs.antt =====
-- Two stacks of chunks, side by side (runtime/gc/umstack.c).
use rtmlton.Prelude.{ℕ, ◌≡◌, ◌≢◌, ap, ◌∙◌, true, List, ◌++◌, [], ◌∷◌, ◌∈◌, ◌∉◌, All, arith}
use rtmlton.Chunk.{Address, Memory}
use rtmlton.Stack.{frame_of, is_stack, copied}

abbrev pub Pair : Type 0
Pair = Address × Address

abbrev pub chunks : List Pair → List Address
chunks [] = []
chunks ((a, b) ∷ ps) = a ∷ b ∷ chunks ps

-- From `f` and `t` the links lead through the chunks `ps` of two stacks.
abbrev pub ArePaired : Memory → Address → Address → List Pair → Type 0
ArePaired m f t [] = Unit
ArePaired m f t ((a, b) ∷ ps) =
    (f ≡ a)
    × (t ≡ b)
    × (is_stack m a ≡ true)
    × (is_stack m b ≡ true)
    × ArePaired m (m a).next_chunk (m b).next_chunk ps

pub ArePaired-same :
    (m m' : Memory) (f t : Address) (ps : List Pair)
    → ((x : Address) → x ∈ chunks ps → m' x ≡ m x)
    → ArePaired m f t ps
    → ArePaired m' f t ps
ArePaired-same m m' f t [] same h = h
ArePaired-same m m' f t ((a, b) ∷ ps) same (p, q, u, v, rest) =
    let ea = same a (ground arith) in
    let eb = same b (ground arith) in
    (
      p,
      q,
      rw ea u,
      rw eb v,
      rw (ea, eb)
          (ArePaired-same m m' (m a).next_chunk (m b).next_chunk ps
            (λ x i. same x (ground (arith, i))) rest),
    )

-- A frame of another chunk is not the frame of one of these.
pub frame_apart :
    (a e : ℕ) (ps : List Pair) → a ∉ chunks ps → e ≡ frame_of a → All (λ p. e ≢ frame_of p.0) ps
frame_apart a e [] out h = tt
frame_apart a e ((x, y) ∷ ps) out h =
    let ax : a ≢ x = ground (arith, out) in
    ((λ k. ax (omega arith)), frame_apart a e ps (ground (arith, out)) h)

abbrev pub targets : List Pair → List Address
targets [] = []
targets ((a, b) ∷ ps) = b ∷ targets ps

pub targets-chunks : (x : Address) (ps : List Pair) → x ∉ chunks ps → x ∉ targets ps
targets-chunks x [] h = h
targets-chunks x ((a, b) ∷ ps) h =
    let rest = targets-chunks x ps (ground (arith, h)) in ground (arith, h, rest)

-- A pair of a list has its chunks in it.
pub chunks-here : (ps qs : List Pair) (a b : Address) → a ∈ chunks (ps ++ (a, b) ∷ qs)
chunks-here [] qs a b = ground arith
chunks-here ((x, y) ∷ ps) qs a b = ground (arith, chunks-here ps qs a b)

-- The chunks of `w` are copies of those of `m`.
abbrev pub AreCopied : Memory → Memory → List Pair → Type 0
AreCopied m w [] = Unit
AreCopied m w ((a, b) ∷ ps) = (w b ≡ copied (m a) (m b)) × AreCopied m w ps

pub AreCopied-same :
    (m m' w : Memory) (ps : List Pair)
    → ((x : Address) → x ∈ chunks ps → m' x ≡ m x)
    → AreCopied m' w ps
    → AreCopied m w ps
AreCopied-same m m' w [] same h = h
AreCopied-same m m' w ((a, b) ∷ ps) same (p, rest) = (
  p
      ∙ ap (λ x. copied x (m' b)) (same a (ground arith))
      ∙ ap (λ x. copied (m a) x) (same b (ground arith)),
  AreCopied-same m m' w ps (λ x i. same x (ground (arith, i))) rest,
)

-- A chunk that is in none of the pairs is in none of fewer.
pub chunks-fewer :
    (x : Address) (ps : List Pair) (p : Pair) (qs : List Pair)
    → x ∉ chunks (ps ++ p ∷ qs)
    → x ∉ chunks (ps ++ p ∷ [])
chunks-fewer x [] (a, b) qs h = ground (arith, h)
chunks-fewer x ((c, d) ∷ ps) p qs h =
    let rest = chunks-fewer x ps p qs (ground (arith, h)) in ground (arith, h, rest)
