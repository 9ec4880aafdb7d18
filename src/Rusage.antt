-- ===== src/Rusage.antt =====
-- The time that the collector takes (runtime/gc/rusage.c). `getrusage` is a parameter: the functions
-- that call it take what it returns. `time_t` is signed and has 32 bits: seconds are words, those from
-- 2 ^ 31 on are negative. A sum that overflows, which is undefined in C, wraps around here. A value of
-- microseconds is below a million.
use rtmlton.Prelude.{
  ℕ, ◌+◌, ◌-◌, ◌*◌, ◌/◌, ◌%◌, ◌^◌, ◌≤◌, ◌<◌, ◌≡◌, refl, ltb, if◌then◌else◌, arith,
}

-- `struct timeval`
pub record Timeval : Type 0 where
  pub tv_sec : ℕ
  pub tv_usec : ℕ

-- the fields of `struct rusage` that are used
pub record Rusage : Type 0 where
  pub ru_utime : Timeval
  pub ru_stime : Timeval

abbrev pub million : ℕ
million = 1000000

abbrev pub plus : Timeval → Timeval → Timeval
plus a b =
    let usec = a.tv_usec + b.tv_usec in
    record { tv_sec = (a.tv_sec + b.tv_sec + usec / million) % 2 ^ 32; tv_usec = usec % million }

-- The seconds are `(a - b) - 1`, with what the microseconds carry.
abbrev pub minus : Timeval → Timeval → Timeval
minus a b =
    let usec = a.tv_usec + million - b.tv_usec in
    record {
      tv_sec = (a.tv_sec + 2 ^ 32 - b.tv_sec + 2 ^ 32 - 1 + usec / million) % 2 ^ 32;
      tv_usec = usec % million;
    }

unfoldable pub rusage_plus_max : Rusage → Rusage → Rusage
rusage_plus_max a b = record {
  ru_utime = plus a.ru_utime b.ru_utime;
  ru_stime = plus a.ru_stime b.ru_stime;
}

unfoldable pub rusage_minus_max : Rusage → Rusage → Rusage
rusage_minus_max a b = record {
  ru_utime = minus a.ru_utime b.ru_utime;
  ru_stime = minus a.ru_stime b.ru_stime;
}

-- the cast of a `time_t` to `uintmax_t`, which copies the sign
abbrev pub extended : ℕ → ℕ
extended sec = if ltb sec (2 ^ 31) then sec else sec + (2 ^ 64 - 2 ^ 32)

-- `rusageTime`, in milliseconds
unfoldable pub rusage_time : Rusage → ℕ
rusage_time r =
    (1000 * extended r.ru_utime.tv_sec
      + 1000 * extended r.ru_stime.tv_sec
      + r.ru_utime.tv_usec / 1000
      + r.ru_stime.tv_usec / 1000)
    % 2 ^ 64

-- `stopTiming`, at the time `finish`: the result, and `ru_acc` afterwards
unfoldable pub stop_timing : Rusage → Rusage → Rusage → ℕ × Rusage
unfolding rusage_plus_max rusage_minus_max rusage_time
stop_timing finish start acc =
    let total = rusage_minus_max finish start in (rusage_time total, rusage_plus_max acc total)

abbrev pub IsTime : Timeval → Type 0
IsTime t = (t.tv_sec < 2 ^ 31) × (t.tv_usec < million)

abbrev pub IsRusage : Rusage → Type 0
IsRusage r = IsTime r.ru_utime × IsTime r.ru_stime

-- a time in microseconds
abbrev pub micros : Timeval → ℕ
micros t = million * t.tv_sec + t.tv_usec

-- No time of `a` is later than that of `b`.
abbrev pub IsBefore : Rusage → Rusage → Type 0
IsBefore a b = (micros a.ru_utime ≤ micros b.ru_utime) × (micros a.ru_stime ≤ micros b.ru_stime)

-- With the time from `start` to `finish`, the accumulated time fits a `time_t`.
abbrev pub Fits : Rusage → Rusage → Rusage → Type 0
Fits acc start finish =
    (micros acc.ru_utime + micros finish.ru_utime < micros start.ru_utime + million * 2 ^ 31)
    × (micros acc.ru_stime + micros finish.ru_stime < micros start.ru_stime + million * 2 ^ 31)

module _ (a b : Timeval) (h : IsTime a) (k : IsTime b) where
  minus-IsTime : micros b ≤ micros a → IsTime (minus a b)
  minus-IsTime before = (omega arith, omega arith)

  minus-micros : micros b ≤ micros a → micros b + micros (minus a b) ≡ micros a
  minus-micros before = omega arith

Timeval-eq : (a b : Timeval) → a.tv_sec ≡ b.tv_sec → a.tv_usec ≡ b.tv_usec → a ≡ b
Timeval-eq a b e f = λ i. record { tv_sec = e i; tv_usec = f i }

plus-minus : (a b : Timeval) → IsTime a → IsTime b → plus b (minus a b) ≡ a
plus-minus a b h k = Timeval-eq (plus b (minus a b)) a (omega arith) (omega arith)

minus-plus : (a b : Timeval) → IsTime a → IsTime b → minus (plus b a) b ≡ a
minus-plus a b h k = Timeval-eq (minus (plus b a) b) a (omega arith) (omega arith)

plus-IsTime :
    (a b : Timeval)
    → IsTime a
    → IsTime b
    → micros a + micros b < million * 2 ^ 31
    → IsTime (plus a b)
plus-IsTime a b h k small = (omega arith, omega arith)

extended-same : (sec : ℕ) → sec < 2 ^ 31 → extended sec ≡ sec
extended-same sec small = ground (arith, small)

rusage_time-bounds :
    (r : Rusage)
    → IsRusage r
    → (1000 * rusage_time r ≤ micros r.ru_utime + micros r.ru_stime)
      × (micros r.ru_utime + micros r.ru_stime < 1000 * rusage_time r + 2000)
unfolding rusage_time
rusage_time-bounds r h =
    let user = extended-same r.ru_utime.tv_sec h.0.0 in
    let system = extended-same r.ru_stime.tv_sec h.1.0 in
    rw (user, system) (omega arith, omega arith)

-- For times of start and of end that `getrusage` can return, the first not later than the second, and
-- an accumulated time that has room for the time between, `stopTiming` computes the time between: added
-- to the time of start by `rusagePlusMax` it gives the time of end, and added to the accumulated time
-- the new one, which is a time again, and from which `rusageMinusMax` takes it away again. The result is
-- the time between in milliseconds, too small by less than two.
pub stop_timing-total :
    (finish start acc : Rusage)
    → IsRusage finish
    → IsRusage start
    → IsRusage acc
    → IsBefore start finish
    → Fits acc start finish
    → (total : Rusage) × IsRusage total
      × (rusage_plus_max start total ≡ finish)
      × ((stop_timing finish start acc).1 ≡ rusage_plus_max acc total)
      × IsRusage (stop_timing finish start acc).1
      × (rusage_minus_max (rusage_plus_max acc total) acc ≡ total)
      × (1000 * (stop_timing finish start acc).0 ≤ micros total.ru_utime + micros total.ru_stime)
      × (micros total.ru_utime + micros total.ru_stime
          < 1000 * (stop_timing finish start acc).0 + 2000)
unfolding stop_timing rusage_plus_max rusage_minus_max rusage_time
stop_timing-total finish start acc h k l before room =
    let total = rusage_minus_max finish start in
    let user = minus-IsTime finish.ru_utime start.ru_utime h.0 k.0 before.0 in
    let system = minus-IsTime finish.ru_stime start.ru_stime h.1 k.1 before.1 in
    let user_micros = minus-micros finish.ru_utime start.ru_utime h.0 k.0 before.0 in
    let system_micros = minus-micros finish.ru_stime start.ru_stime h.1 k.1 before.1 in
    let bounds = rusage_time-bounds total (user, system) in
    (
      total,
      (user, system),
      (λ i. record {
        ru_utime = plus-minus finish.ru_utime start.ru_utime h.0 k.0 i;
        ru_stime = plus-minus finish.ru_stime start.ru_stime h.1 k.1 i;
      }),
      refl,
      (
        plus-IsTime acc.ru_utime total.ru_utime l.0 user (omega (arith, room.0, user_micros)),
        plus-IsTime acc.ru_stime total.ru_stime l.1 system (omega (arith, room.1, system_micros)),
      ),
      (λ i. record {
        ru_utime = minus-plus total.ru_utime acc.ru_utime user l.0 i;
        ru_stime = minus-plus total.ru_stime acc.ru_stime system l.1 i;
      }),
      bounds.0,
      bounds.1,
    )
