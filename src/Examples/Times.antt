-- ===== src/Examples/Times.antt =====
-- A collection from 3.9 s to 5.1 s of user time.
use rtmlton.Prelude.{ℕ, ◌-◌, ◌^◌, ◌+◌, ◌*◌, ◌≤◌, ◌<◌, ◌≡◌, refl, arith}
use rtmlton.Rusage.{
  Rusage, IsRusage, micros, rusage_plus_max, rusage_minus_max, stop_timing, stop_timing-total,
}

abbrev start : Rusage
start = record {
  ru_utime = record { tv_sec = 3; tv_usec = 900000 };
  ru_stime = record { tv_sec = 0; tv_usec = 1500 };
}

abbrev finish : Rusage
finish = record {
  ru_utime = record { tv_sec = 5; tv_usec = 100000 };
  ru_stime = record { tv_sec = 0; tv_usec = 2499 };
}

abbrev none_yet : Rusage
none_yet = record {
  ru_utime = record { tv_sec = 0; tv_usec = 0 };
  ru_stime = record { tv_sec = 0; tv_usec = 0 };
}

abbrev seconds : ℕ → Rusage
seconds n = record {
  ru_utime = record { tv_sec = n; tv_usec = 0 };
  ru_stime = record { tv_sec = 0; tv_usec = 0 };
}

-- An end one second before the start.
backwards : (stop_timing (seconds 3) (seconds 4) none_yet).0 ≡ 2 ^ 64 - 1000
unfolding stop_timing
backwards = refl

one_second : (stop_timing finish start none_yet).0 ≡ 1200
unfolding stop_timing
one_second = refl

stop_timing-total_example :
    (total : Rusage) × IsRusage total
    × (rusage_plus_max start total ≡ finish)
    × ((stop_timing finish start none_yet).1 ≡ rusage_plus_max none_yet total)
    × IsRusage (stop_timing finish start none_yet).1
    × (rusage_minus_max (rusage_plus_max none_yet total) none_yet ≡ total)
    × (1000 * (stop_timing finish start none_yet).0 ≤ micros total.ru_utime + micros total.ru_stime)
    × (micros total.ru_utime + micros total.ru_stime
        < 1000 * (stop_timing finish start none_yet).0 + 2000)
stop_timing-total_example =
    stop_timing-total finish start none_yet (omega arith) (omega arith) (omega arith) (omega arith)
      (omega arith)
