-- ===== src/Allocate/Link.antt =====
-- Chains of allocated chunks, and the loop of `allocateChunks` that builds them.
use rtmlton.Prelude.{
  ap, ◌∙◌, ℕ, ◌+◌, ◌<◌, ◌≤◌, ◌^◌, ◌≡◌, refl, ◌≢◌, true, List, [], ◌∷◌, ◌++◌, arith, length, ◌∈◌,
  ◌∉◌, has-append,
}
use rtmlton.Prelude.Outcome.{ok}
use rtmlton.Chunk.{Address, ChunkType, Memory, Chunk, Header, um_chunk_sentinel}
use rtmlton.State.{GcState}
use rtmlton.FreeList.Chain.{IsList, IsList-same}
use rtmlton.Allocate.{link_chunks, attach, fresh_header}
use rtmlton.Allocate.Take.{taken, alloc_next_chunk-ok, taken-IsList, taken-head, taken-others}

-- A chunk as it is handed out: in use, of the type asked for, with the colour of the cycle.
pub record IsFresh (ty : ChunkType) (h : Header) (prev : Address) (c : Chunk) : Type 0 where
  pub type : c.chunk_type ≡ ty
  pub header : c.header ≡ record h { in_use = true }
  pub sentinel : c.sentinel ≡ um_chunk_sentinel
  pub prev_chunk : c.prev_chunk ≡ prev

-- From `p`, with `prev` before it, the chunks `xs` are linked in both directions.
abbrev pub Linked : ChunkType → Header → Memory → Address → Address → List Address → Type 0
Linked ty h m prev p [] = p ≡ 0
Linked ty h m prev p (x ∷ xs) =
    (p ≡ x) × IsFresh ty h prev (m x) × Linked ty h m x (m x).next_chunk xs

-- From `p` the links lead through the chunks `xs` to `e`.
abbrev pub Leads : Memory → Address → List Address → Address → Type 0
Leads m p [] e = p ≡ e
Leads m p (x ∷ xs) e = (p ≡ x) × Leads m (m x).next_chunk xs e

-- a memory that has the links of another
pub Leads-same :
    (m m' : Memory) (p : Address) (xs : List Address) (e : Address)
    → ((a : Address) → a ∈ xs → (m' a).next_chunk ≡ (m a).next_chunk)
    → Leads m p xs e
    → Leads m' p xs e
Leads-same m m' p [] e same h = h
Leads-same m m' p (x ∷ xs) e same h = (
  h.0,
  rw (same x (ground arith))
      (Leads-same m m' (m x).next_chunk xs e (λ a i. same a (ground arith)) h.1),
)

pub Linked-Leads :
    (ty : ChunkType) (h : Header) (m : Memory) (prev p : Address) (xs : List Address)
    → Linked ty h m prev p xs
    → Leads m p xs 0
Linked-Leads ty h m prev p [] l = l
Linked-Leads ty h m prev p (x ∷ xs) l = (l.0, Linked-Leads ty h m x (m x).next_chunk xs l.2)

-- Nothing but the heap's contents, the free list, the reservation and the counters has changed.
abbrev pub SameRest : GcState → GcState → Type 0
SameRest s t = t ≡ record s { mem = t.mem; fl = t.fl; reserved = t.reserved; stats = t.stats }

-- The loop's outcome, when the chunks `xs` stand at the front of the free list.
pub record Extended (ty : ChunkType) (h : Header) (tid : ℕ) (current : Address) (s : GcState)
    (xs ys : List Address) : Type 0 where
  pub result : GcState
  pub returns : link_chunks ty tid (length xs) current s ≡ ok result
  pub free : IsList result.mem result.fl ys
  pub chain : Linked ty h result.mem current (result.mem current).next_chunk xs
  pub here :
      result.mem current ≡ record (s.mem current) { next_chunk = (result.mem current).next_chunk }
  pub others : (a : Address) → a ≢ current → a ∉ xs → result.mem a ≡ s.mem a
  pub reserved : result.reserved + length xs ≡ s.reserved
  pub rest : SameRest s result

abbrev after : ChunkType → ℕ → Address → Address → GcState → GcState
after ty tid current x s = record (taken ty tid s) { mem = attach (taken ty tid s).mem current x }

-- One more chunk in front.
module _ (ty : ChunkType) (tid : ℕ) (current x : Address) (s : GcState) (xs ys : List Address)
    (l : IsList s.mem s.fl (x ∷ xs ++ ys)) (apart : current ≢ x) (out : current ∉ xs)
    (e : Extended ty (fresh_header s tid) tid x (after ty tid current x s) xs ys) where
  open e use {result}

  current-next : result.mem current ≡ record (s.mem current) { next_chunk = x }
  current-next =
      e.others current apart out ∙ ground (arith, taken-others ty tid s x (xs ++ ys) l current)

  x-IsFresh : IsFresh ty (fresh_header s tid) current (result.mem x)
  x-IsFresh = rw (e.here) (record {
    type = ground (arith, taken-head ty tid s x (xs ++ ys) l);
    header = ground (arith, taken-head ty tid s x (xs ++ ys) l);
    sentinel = ground (arith, taken-head ty tid s x (xs ++ ys) l);
    prev_chunk = ground (arith, taken-head ty tid s x (xs ++ ys) l);
  })

  extend-others : (a : Address) → a ≢ current → a ∉ x ∷ xs → result.mem a ≡ s.mem a
  extend-others a n o =
      e.others a (ground arith) (ground arith)
      ∙ ground (arith, taken-others ty tid s x (xs ++ ys) l a)

  extend :
      0 < s.reserved
      → s.reserved < 2 ^ 32
      → Extended ty (fresh_header s tid) tid current s (x ∷ xs) ys
  unfolding link_chunks
  extend pos r32 = record {
    result = result;
    returns = rw (alloc_next_chunk-ok ty tid s x (xs ++ ys) l) e.returns;
    free = e.free;
    chain = (ap (λ c. c.next_chunk) current-next, x-IsFresh, e.chain);
    here = ground (arith, current-next);
    others = extend-others;
    reserved = omega (arith, e.reserved);
    rest = e.rest;
  }

module _ (ty : ChunkType) (tid : ℕ) where
  pub link_chunks-Extended :
      (xs ys : List Address) (current : Address) (s : GcState)
      → IsList s.mem s.fl (xs ++ ys)
      → current ∉ xs ++ ys
      → (s.mem current).next_chunk ≡ 0
      → length xs ≤ s.reserved
      → s.reserved < 2 ^ 32
      → length (xs ++ ys) < 2 ^ 32
      → Extended ty (fresh_header s tid) tid current s xs ys
  unfolding link_chunks
  link_chunks-Extended [] ys current s l out end enough r32 small = record {
    result = s;
    returns = refl;
    free = l;
    chain = end;
    here = refl;
    others = λ a n k. refl;
    reserved = omega arith;
    rest = refl;
  }
  link_chunks-Extended (x ∷ xs) ys current s l out end enough r32 small =
      let apart : current ≢ x = ground arith in
      let l' =
        IsList-same (taken ty tid s).mem (after ty tid current x s).mem _ (xs ++ ys)
          (λ a i. ground (arith, l.distinct)) (taken-IsList ty tid s x (xs ++ ys) l small) in
      extend ty tid current x s xs ys l apart (ground (arith, has-append current xs ys))
        (link_chunks-Extended xs ys x (after ty tid current x s) l' l.distinct.0
          (ground (arith, taken-head ty tid s x (xs ++ ys) l)) (omega arith) (omega arith)
          (omega arith))
        (omega arith) r32
