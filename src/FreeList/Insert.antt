-- ===== src/FreeList/Insert.antt =====
-- Insertion at the back of a list.
use mathlib.Core.Path.{subst}
use rtmlton.Prelude.{
  suc-==-zero, ℕ, suc, ◌+◌, ◌<◌, ◌^◌, ◌≡◌, refl, ◌≢◌, List, [], ◌∷◌, ◌++◌, arith, inc32, sym,
  length, length-append, ◌∈◌, ◌∉◌, has-append, Distinct-append, last-mem, last-append,
}
use rtmlton.Chunk.{Address, um_empty, Chunk, Memory, write}
use rtmlton.State.{ChunkList, GcState}
use rtmlton.FreeList.{
  push_back, set_next_free, insert_chunk_to_fl, insert_chunkto_sub_list, emptied,
}
use rtmlton.FreeList.Chain.{IsList, Chain-join}

pub ne_of_mem : (xs : List Address) (a c : Address) → a ∈ xs → c ∉ xs → a ≢ c
ne_of_mem xs a c i out e = cc

-- What is written when `c` is put behind a tail `t`, another chunk.
module _ (m : Memory) (t c : Address) where
  abbrev behind : Memory
  behind = let m' = set_next_free m t c in write m' c (emptied (m' c))

  behind-tail : t ≢ c → (behind t).next_free ≡ c
  behind-tail ne = ground arith

  behind-others : (a : Address) → a ≢ t → a ≢ c → (behind a).next_free ≡ (m a).next_free
  behind-others a n k = ground arith

  behind-type : (a : Address) → a ≢ c → (behind a).chunk_type ≡ (m a).chunk_type
  behind-type a n = ground arith

  behind-new : (behind c).next_free ≡ 0
  behind-new = ground arith

  behind-new_type : (behind c).chunk_type ≡ um_empty
  behind-new_type = ground arith

push_back-nonempty :
    (m : Memory) (q : ChunkList) (c : Address) (n : ℕ)
    → q.chunks ≡ suc n
    → push_back c m q ≡ (behind m q.tail c, record q { tail = c; chunks = inc32 q.chunks })
unfolding push_back
push_back-nonempty m q c n e = rw (e, suc-==-zero n)

module _ (m : Memory) (q : ChunkList) (c : Address) where
  pub push_back-IsList :
      (xs : List Address)
      → IsList m q xs
      → c ≢ 0
      → c ∉ xs
      → length xs + 1 < 2 ^ 32
      → IsList (push_back c m q).0 (push_back c m q).1 (xs ++ c ∷ [])
  unfolding push_back
  push_back-IsList [] l ne out small = record {
    chain = ground (arith, l.count);
    tail_last = ground (arith, l.count);
    count = ground (arith, l.count);
    distinct = ground arith;
    empty = λ a i. ground (arith, l.count);
  }
  push_back-IsList (x ∷ xs) l ne out small =
      rw (push_back-nonempty m q c (length xs) l.count) (record {
        chain =
            Chain-join m (behind m q.tail c) q.head c x xs (c ∷ [])
              (λ a i n.
                behind-others m q.tail c a (ground (arith, l.tail_last))
                  (ne_of_mem (x ∷ xs) a c i out))
              (ground (arith, l.tail_last, apart, behind-tail m q.tail c)) l.distinct l.chain
              (refl, ne, behind-new m q.tail c);
        tail_last = sym (last-append (x ∷ xs) c []);
        count = ground (arith, l.count, length-append xs (c ∷ []));
        distinct =
            Distinct-append (x ∷ xs) (c ∷ []) l.distinct (refl, tt)
              (λ a i. ground (arith, ne_of_mem (x ∷ xs) a c i out));
        empty = λ a i. ground (
          arith,
          has-append a (x ∷ xs) (c ∷ []),
          l.empty a,
          behind-type m q.tail c a,
          behind-new_type m q.tail c,
        );
      })
    where
      apart : q.tail ≢ c
      apart =
          ne_of_mem (x ∷ xs) q.tail c (subst (λ t. t ∈ x ∷ xs) (sym l.tail_last) (last-mem x xs))
            out

module _ (s : GcState) (c : Address) (xs : List Address) (ne : c ≢ 0) (out : c ∉ xs)
    (small : length xs + 1 < 2 ^ 32) where
  -- `insertChunkToFL` puts a chunk that is on no list at the back of the free list.
  pub insert_chunk_to_fl-IsList :
      IsList s.mem s.fl xs
      → IsList (insert_chunk_to_fl c s).mem (insert_chunk_to_fl c s).fl (xs ++ c ∷ [])
  unfolding insert_chunk_to_fl
  insert_chunk_to_fl-IsList l = push_back-IsList s.mem s.fl c xs l ne out small

  pub insert_chunkto_sub_list-IsList :
      IsList s.mem s.sl xs
      → IsList (insert_chunkto_sub_list c s).mem (insert_chunkto_sub_list c s).sl (xs ++ c ∷ [])
  unfolding insert_chunkto_sub_list
  insert_chunkto_sub_list-IsList l = push_back-IsList s.mem s.sl c xs l ne out small

-- Only the new chunk and the tail are written, and of the tail only the link.
pub push_back_frame :
    (m : Memory) (q : ChunkList) (c a : Address)
    → a ≢ c
    → (a ≡ q.tail → q.chunks ≡ 0)
    → (push_back c m q).0 a ≡ m a
unfolding push_back
push_back_frame m q c a n k = ground arith

-- What a write to a link leaves of a chunk.
abbrev pub SameButLink : Chunk → Chunk → Type 0
SameButLink c d = d ≡ record c { next_free = d.next_free }

pub push_back-SameButLink :
    (m : Memory) (q : ChunkList) (c a : Address) → a ≢ c → SameButLink (m a) ((push_back c m q).0 a)
unfolding push_back
push_back-SameButLink m q c a n = ground arith

pub push_back-um_empty :
    (m : Memory) (q : ChunkList) (c : Address) → ((push_back c m q).0 c).chunk_type ≡ um_empty
unfolding push_back
push_back-um_empty m q c = ground arith
