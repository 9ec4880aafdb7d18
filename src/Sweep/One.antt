-- ===== src/Sweep/One.antt =====
-- One round of the sweep, with the one list that it appends to.
use rtmlton.Prelude.{
  ℕ, ◌+◌, ◌<◌, ◌^◌, Bool, true, false, if◌then◌else◌, inc64, List, [], ◌∷◌, ◌++◌, ◌≡◌, ◌≢◌, arith,
  ◌∉◌, length,
}
use rtmlton.Chunk.{Address, um_empty, Chunk, Memory, write}
use rtmlton.State.{ChunkList}
use rtmlton.FreeList.{push_back}
use rtmlton.FreeList.Chain.{IsList, IsList-same}
use rtmlton.FreeList.Insert.{SameButLink, push_back-IsList, push_back_frame, push_back-SameButLink}
use rtmlton.Sweep.Fate.{is_garbage, is_coloured, survivor, is_swept}

pub record Sweeper : Type 0 where
  pub mem : Memory
  pub queue : ChunkList
  pub freed : ℕ

-- one round
unfoldable pub sweep_one : Bool → Address → Sweeper → Sweeper
sweep_one ca p w =
    if is_garbage ca (w.mem p)
    then record {
      mem = (push_back p w.mem w.queue).0;
      queue = (push_back p w.mem w.queue).1;
      freed = inc64 w.freed;
    }
    else if is_coloured (w.mem p)
    then record w { mem = write w.mem p (survivor (w.mem p)) }
    else w

-- a collected chunk is empty, and otherwise as it was
abbrev pub SameButFree : Chunk → Chunk → Type 0
SameButFree c d = d ≡ record c { chunk_type = um_empty; next_free = d.next_free }

module _ (ca : Bool) (p : Address) (w : Sweeper) where
  abbrev pub next : Sweeper
  next = sweep_one ca p w

  pub one-others : (a : Address) → a ≢ p → SameButLink (w.mem a) (next.mem a)
  unfolding sweep_one
  one-others a n = ground (arith, push_back-SameButLink w.mem w.queue p a n)

  pub one-survivor : is_garbage ca (w.mem p) ≡ false → next.mem p ≡ survivor (w.mem p)
  unfolding sweep_one
  one-survivor e = ground arith

  pub one-garbage : is_garbage ca (w.mem p) ≡ true → SameButFree (w.mem p) (next.mem p)
  unfolding sweep_one push_back
  one-garbage e = ground arith

  -- A chunk that is not swept and not the tail of the list is not written.
  pub one-idle :
      (a : Address)
      → is_swept (w.mem a).chunk_type ≡ false
      → (a ≡ w.queue.tail → w.queue.chunks ≡ 0)
      → next.mem a ≡ w.mem a
  unfolding sweep_one
  one-idle a e k = ground (arith, push_back_frame w.mem w.queue p a)

  pub one-queue_keep :
      is_garbage ca (w.mem p) ≡ false → (next.queue ≡ w.queue) × (next.freed ≡ w.freed)
  unfolding sweep_one
  one-queue_keep e = ground arith

  pub one-freed : is_garbage ca (w.mem p) ≡ true → next.freed ≡ inc64 w.freed
  unfolding sweep_one
  one-freed e = ground arith

  pub one-mem_keep :
      is_garbage ca (w.mem p) ≡ false
      → (a : Address) → is_swept (w.mem a).chunk_type ≡ false
      → next.mem a ≡ w.mem a
  unfolding sweep_one
  one-mem_keep e a t = ground arith

  pub one-IsList_keep :
      (xs : List Address)
      → is_garbage ca (w.mem p) ≡ false
      → IsList w.mem w.queue xs
      → IsList next.mem next.queue xs
  one-IsList_keep xs e l = rw ((one-queue_keep e).0) (
      IsList-same w.mem next.mem w.queue xs (λ a i. one-mem_keep e a (ground (arith, l.empty a))) l)

  pub not-mem_of_garbage :
      (xs : List Address) → is_garbage ca (w.mem p) ≡ true → IsList w.mem w.queue xs → p ∉ xs
  not-mem_of_garbage xs e l = ground (arith, l.empty p)

  pub one-IsList_push :
      (xs : List Address)
      → is_garbage ca (w.mem p) ≡ true
      → p ≢ 0
      → length xs + 1 < 2 ^ 32
      → IsList w.mem w.queue xs
      → IsList next.mem next.queue (xs ++ p ∷ [])
  unfolding sweep_one
  one-IsList_push xs e ne small l =
      rw (e, sweep_one) (push_back-IsList w.mem w.queue p xs l ne (not-mem_of_garbage xs e l) small)
