-- ===== src/Sweep/Pass.antt =====
-- The pass over the chunks.
use rtmlton.Prelude.{
  ==_iff, Bool-cases, inl, inr, ◌+◌, ◌<◌, ◌^◌, ◌%◌, Bool, true, false, List, [], ◌∷◌, ◌++◌, ◌≡◌,
  ◌≢◌, refl, arith, ◌∈◌, ◌∉◌, Distinct, length, length-append, has-append, ◌∙◌, sym, ap, last-mem,
  ◌==◌,
}
use mathlib.Core.List.{append-nil, append_assoc}
use mathlib.Core.Path.{subst}
use rtmlton.Chunk.{Address, Chunk, Memory}
use rtmlton.State.{ChunkList}
use rtmlton.FreeList.Chain.{IsList}
use rtmlton.FreeList.Insert.{SameButLink}
use rtmlton.Sweep.Fate.{is_garbage, survivor, garbage, garbage-same, is_garbage-same, is_swept}
use rtmlton.Sweep.One.{
  Sweeper, sweep_one, SameButFree, one-others, one-survivor, one-garbage, one-idle, one-queue_keep,
  one-freed, one-IsList_keep, one-IsList_push,
}

unfoldable pub sweep_all : Bool → List Address → Sweeper → Sweeper
sweep_all ca [] w = w
sweep_all ca (p ∷ ps) w = sweep_all ca ps (sweep_one ca p w)

-- The state after the chunks `ps` have been swept, when the list held `xs` before.
pub record Swept (ca : Bool) (ps xs : List Address) (w w' : Sweeper) : Type 0 where
  pub free : IsList w'.mem w'.queue (xs ++ garbage ca w.mem ps)
  pub others : (a : Address) → a ∉ ps → SameButLink (w.mem a) (w'.mem a)
  pub kept :
      (a : Address)
      → a ∈ ps
      → is_garbage ca (w.mem a) ≡ false
      → SameButLink (survivor (w.mem a)) (w'.mem a)
  pub dropped :
      (a : Address) → a ∈ ps → is_garbage ca (w.mem a) ≡ true → SameButFree (w.mem a) (w'.mem a)
  pub idle : (a : Address) → is_swept (w.mem a).chunk_type ≡ false → a ∉ xs → w'.mem a ≡ w.mem a
  pub freed : w'.freed ≡ (w.freed + length (garbage ca w.mem ps)) % 2 ^ 64

pub SameButLink-trans : (c d e : Chunk) → SameButLink c d → SameButLink d e → SameButLink c e
SameButLink-trans c d e p q = ground arith

survivor-same : (c d : Chunk) → SameButLink c d → SameButLink (survivor c) (survivor d)
survivor-same c d e = rw e (ground arith)

pub SameButFree-after : (c d e : Chunk) → SameButFree c d → SameButLink d e → SameButFree c e
SameButFree-after c d e p q = ground arith

SameButFree-before : (c d e : Chunk) → SameButLink c d → SameButFree d e → SameButFree c e
SameButFree-before c d e p q = ground arith

module _ (ca : Bool) (p : Address) (ps : List Address) (w : Sweeper) (out : p ∉ ps) where
  garbage-next : garbage ca (sweep_one ca p w).mem ps ≡ garbage ca w.mem ps
  garbage-next =
      garbage-same ca w.mem (sweep_one ca p w).mem ps (λ a i. one-others ca p w a (ground arith))

  module _ (zs : List Address) (w' : Sweeper) (r : Swept ca ps zs (sweep_one ca p w) w') where
    abbrev mid : Memory
    mid = (sweep_one ca p w).mem

    later-others : (a : Address) → a ∉ p ∷ ps → SameButLink (w.mem a) (w'.mem a)
    later-others a o =
        SameButLink-trans (w.mem a) (mid a) (w'.mem a) (one-others ca p w a (ground arith))
          (r.others a (ground arith))

    here-kept : is_garbage ca (w.mem p) ≡ false → SameButLink (survivor (w.mem p)) (w'.mem p)
    here-kept e = subst (λ c. SameButLink c (w'.mem p)) (one-survivor ca p w e) (r.others p out)

    here-dropped : is_garbage ca (w.mem p) ≡ true → SameButFree (w.mem p) (w'.mem p)
    here-dropped e =
        SameButFree-after (w.mem p) (mid p) (w'.mem p) (one-garbage ca p w e) (r.others p out)

    later-kept :
        (a : Address)
        → a ∈ p ∷ ps
        → is_garbage ca (w.mem a) ≡ false
        → SameButLink (survivor (w.mem a)) (w'.mem a)
    later-kept a i e = elim (Bool-cases (a == p)) [
      | inl same ↦
          subst (λ b. is_garbage ca (w.mem b) ≡ false → SameButLink (survivor (w.mem b)) (w'.mem b))
            (sym ((==_iff a p).0 same)) here-kept e
      | inr other ↦
          let o = one-others ca p w a (ground arith) in
          SameButLink-trans (survivor (w.mem a)) (survivor (mid a)) (w'.mem a)
            (survivor-same (w.mem a) (mid a) o)
            (r.kept a (ground arith) (is_garbage-same ca (w.mem a) (mid a) o ∙ e))
    ]

    later-dropped :
        (a : Address)
        → a ∈ p ∷ ps
        → is_garbage ca (w.mem a) ≡ true
        → SameButFree (w.mem a) (w'.mem a)
    later-dropped a i e = elim (Bool-cases (a == p)) [
      | inl same ↦
          subst (λ b. is_garbage ca (w.mem b) ≡ true → SameButFree (w.mem b) (w'.mem b))
            (sym ((==_iff a p).0 same)) here-dropped e
      | inr other ↦
          let o = one-others ca p w a (ground arith) in
          SameButFree-before (w.mem a) (mid a) (w'.mem a) o
            (r.dropped a (ground arith) (is_garbage-same ca (w.mem a) (mid a) o ∙ e))
    ]

-- The tail of the list is one of its chunks, if it has any.
tail_mem :
    (m : Memory) (q : ChunkList) (xs : List Address) (a : Address)
    → IsList m q xs
    → a ∉ xs
    → a ≡ q.tail
    → q.chunks ≡ 0
tail_mem m q [] a l o e = l.count
tail_mem m q (x ∷ xs) a l o e = ground (arith, l.tail_last, last-mem x xs)

module _ (ca : Bool) (p : Address) (ps xs : List Address) (w w' : Sweeper) (out : p ∉ ps)
    (l : IsList w.mem w.queue xs) where
  keep :
      is_garbage ca (w.mem p) ≡ false
      → Swept ca ps xs (sweep_one ca p w) w'
      → Swept ca (p ∷ ps) xs w w'
  keep e r = record {
    free = rw e (subst (λ g. IsList w'.mem w'.queue (xs ++ g)) (garbage-next ca p ps w out) r.free);
    others = later-others ca p ps w out xs w' r;
    kept = later-kept ca p ps w out xs w' r;
    dropped = later-dropped ca p ps w out xs w' r;
    idle = λ a t o.
        let same = one-idle ca p w a t (tail_mem w.mem w.queue xs a l o) in
        r.idle a (ap (λ c. is_swept c.chunk_type) same ∙ t) o ∙ same;
    freed = rw e (ground (arith, r.freed, one-queue_keep ca p w e, garbage-next ca p ps w out));
  }

  push :
      is_garbage ca (w.mem p) ≡ true
      → Swept ca ps (xs ++ p ∷ []) (sweep_one ca p w) w'
      → Swept ca (p ∷ ps) xs w w'
  push e r = record {
    free = rw e (
        subst (IsList w'.mem w'.queue) (append_assoc xs (p ∷ []) (garbage ca w.mem ps)) (
          subst (λ g. IsList w'.mem w'.queue ((xs ++ p ∷ []) ++ g)) (garbage-next ca p ps w out)
            r.free));
    others = later-others ca p ps w out (xs ++ p ∷ []) w' r;
    kept = later-kept ca p ps w out (xs ++ p ∷ []) w' r;
    dropped = later-dropped ca p ps w out (xs ++ p ∷ []) w' r;
    idle = λ a t o.
        let same = one-idle ca p w a t (tail_mem w.mem w.queue xs a l o) in
        r.idle a (ap (λ c. is_swept c.chunk_type) same ∙ t)
          (ground (arith, has-append a xs (p ∷ [])))
        ∙ same;
    freed = rw e (
        omega (
          arith,
          r.freed,
          one-freed ca p w e,
          ap (length {A = Address}) (garbage-next ca p ps w out),
        ));
  }

-- The pass appends the garbage to the list in the order of the sweep, clears a mark of each other
-- chunk that it visits, and writes nothing else.
pub sweep_all-Swept :
    (ca : Bool) (ps xs : List Address) (w : Sweeper)
    → Distinct ps
    → ((a : Address) → a ∈ ps → a ≢ 0)
    → length xs + length ps < 2 ^ 32
    → w.freed < 2 ^ 64
    → IsList w.mem w.queue xs
    → Swept ca ps xs w (sweep_all ca ps w)
unfolding sweep_all
sweep_all-Swept ca [] xs w d ne small f l = record {
  free = rw append-nil l;
  others = λ a o. refl;
  kept = λ a i. cc;
  dropped = λ a i. cc;
  idle = λ a t o. refl;
  freed = omega arith;
}
sweep_all-Swept ca (p ∷ ps) xs w d ne small f l = elim (Bool-cases (is_garbage ca (w.mem p))) [
  | inl e ↦ push ca p ps xs w (sweep_all ca ps (sweep_one ca p w)) d.0 l e (
      sweep_all-Swept ca ps (xs ++ p ∷ []) (sweep_one ca p w) d.1 (λ a i. ne a (ground arith))
        (omega (arith, length-append xs (p ∷ []))) (rw (one-freed ca p w e) (omega arith))
        (one-IsList_push ca p w xs e (ne p (ground arith)) (omega arith) l))
  | inr e ↦ keep ca p ps xs w (sweep_all ca ps (sweep_one ca p w)) d.0 l e (
      sweep_all-Swept ca ps xs (sweep_one ca p w) d.1 (λ a i. ne a (ground arith)) (omega arith)
        (rw ((one-queue_keep ca p w e).1) f) (one-IsList_keep ca p w xs e l))
]
