-- ===== src/StackGrowth.antt =====
-- Stacks grow and shrink by chunks (`maybe_growstack`, runtime/gc/garbage-collection.c).
pub mod Links
pub mod Effects
pub mod Sizes
use rtmlton.Prelude.{
  ℕ, zero, suc, ◌+◌, ◌%◌, ◌^◌, Bool, true, false, ◌&&◌, ◌||◌, not, ltb, ◌==◌, if◌then◌else◌, max,
  Option, none, some,
}
use rtmlton.Prelude.Outcome.{Outcome, ok, fault, ◌>>=◌}
use rtmlton.Chunk.{Address, Memory, write}
use rtmlton.State.{GcState}
use rtmlton.Object.{normal_chunk}
use rtmlton.Stack.{Thread}
use rtmlton.NewThread.{gc_stack_header, new_object}

-- The float expressions over `controls.ratios`: whether the threshold of growth is at least 1,
-- whether the utilization of a thread is above that threshold, or below the one of shrinking, the
-- size times the ratio of growth, and the loop's test `i < size * (1 - shrink)`.
pub record Ratios : Type 0 where
  pub no_growth : Bool
  pub above : Thread → Bool
  pub below : Thread → Bool
  pub grown : ℕ → ℕ
  pub keeps : ℕ → ℕ → Bool

-- `while (c->next_chunk) c = c->next_chunk`, for less than `fuel` rounds
unfoldable pub last_chunk : ℕ → Memory → Address → Outcome Address
last_chunk zero m c = fault
last_chunk (suc fuel) m c =
    if c == 0
    then fault
    else elim ((m c).next_chunk == 0) [ true ↦ ok c | false ↦ last_chunk fuel m (m c).next_chunk ]

-- The chunk `d` behind `c`.
abbrev pub joined : Address → Address → Memory → Memory
joined c d m =
    let m' = write m c (record (m c) { next_chunk = d }) in
    write m' d (record (m' d) { prev_chunk = c })

unfoldable pub grow :
    ℕ → ℕ → Thread → Option (Address × GcState) → Outcome (Option (Thread × GcState))
unfolding last_chunk
grow fuel need th none = ok none
grow fuel need th (some (d, s)) = do
  c ← last_chunk fuel s.mem (normal_chunk th.first_frame)
  ok (
      some (
        record th { stack_size_in_chunks = (th.stack_size_in_chunks + need) % 2 ^ 32 },
        record s { mem = joined c d s.mem },
      ))

-- The loop that looks for the last chunk to keep, from the `i`-th on: its place and the chunk.
unfoldable pub kept_chunk : Ratios → ℕ → ℕ → ℕ → Memory → Address → Outcome (ℕ × Address)
kept_chunk r zero size i m c = fault
kept_chunk r (suc fuel) size i m c = elim (r.keeps i size) [
  | false ↦ ok (i, c)
  | true ↦ if c == 0 then fault else kept_chunk r fuel size (i + 1) m (m c).next_chunk
]

-- The chunks behind `c` are cut off.
abbrev pub trimmed : Address → Memory → Memory
trimmed c m =
    let d = (m c).next_chunk in
    let m' = write m d (record (m d) { prev_chunk = 0 }) in
    write m' c (record (m' c) { next_chunk = 0 })

unfoldable pub cut : Address → Memory → Outcome Memory
cut c m = if c == 0 || (m c).next_chunk == 0 then fault else ok (trimmed c m)

unfoldable pub shrink : Ratios → ℕ → Thread → GcState → Outcome (Option (Thread × GcState))
unfolding kept_chunk cut
shrink r fuel th s = do
  (i, c) ← kept_chunk r fuel th.stack_size_in_chunks 1 s.mem (normal_chunk th.first_frame)
  m ← cut c s.mem
  ok (some (record th { stack_size_in_chunks = i }, record s { mem = m }))

-- what `maybe_growstack` decides to do
pub data Change : Type 0 where
  no_change growth shrinking : Change

abbrev pub change : Ratios → Bool → Thread → Change
change r force th =
    if r.no_growth && force
    then no_change
    else if not force && ltb th.stack_size_in_chunks 20
    then no_change
    else if force || r.above th
    then growth
    else if r.below th
    then shrinking
    else no_change

-- the number of chunks by which a stack grows
abbrev pub need_of : Ratios → Thread → ℕ
need_of r th = max (r.grown th.stack_size_in_chunks) 10

-- `maybe_growstack`: the thread and the state, or `none` when `rounds` collections were not enough
-- for the reservation. The loops over the stack get `fuel` rounds. The
-- counters of statistics are left out.
unfoldable pub maybe_growstack :
    Ratios
    → (GcState → GcState)
    → ℕ
    → ℕ
    → ℕ
    → Bool
    → Thread
    → GcState
    → Outcome (Option (Thread × GcState))
unfolding new_object grow shrink
maybe_growstack r collect rounds fuel tid force th s = elim (change r force th) [
  | no_change ↦ ok (some (th, s))
  | growth ↦ do
    made ← new_object collect rounds tid (need_of r th) gc_stack_header s
    grow fuel (need_of r th) th made
  | shrinking ↦ shrink r fuel th s
]
