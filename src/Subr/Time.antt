-- ===== src/Subr/Time.antt =====
-- HAMMER2's 64-bit times, in microseconds, and the kernel's timespecs.
use linux_hammer.Base.{ℕ, ◌+◌, ◌-◌, ◌*◌, ◌/◌, ◌%◌, ◌^◌, ◌≤◌, ◌<◌, ◌≡◌, arith}

-- `struct timespec64`; `tv_sec` as an uint64_t, which is how both conversions read it.
pub record Timespec64 : Type 0 where
  pub tv_sec : ℕ
  pub tv_nsec : ℕ

abbrev u32 : ℕ → ℕ
u32 n = n % 2 ^ 32

abbrev u64 : ℕ → ℕ
u64 n = n % 2 ^ 64

unfoldable pub hammer2_time_to_timespec : ℕ → Timespec64
hammer2_time_to_timespec xtime = record {
  tv_sec = u64 (xtime / 1_000_000);
  tv_nsec = u32 (xtime % 1_000_000) * 1000;
}

unfoldable pub hammer2_timespec_to_time : Timespec64 → ℕ
hammer2_timespec_to_time ts = u64 (u32 (ts.tv_nsec / 1000) + u64 (u64 ts.tv_sec * 1_000_000))

-- `hammer2_update_time`, at the clock's reading.
unfoldable pub hammer2_update_time : Timespec64 → ℕ
hammer2_update_time ts = u64 (u64 (u64 ts.tv_sec * 1_000_000) + ts.tv_nsec / 1000)

-- `sb->s_time_min` and `sb->s_time_max`
abbrev pub time_min : ℕ
time_min = 0

abbrev pub time_max : ℕ
time_max = (2 ^ 64 - 1) / 1_000_000 - 1

-- Every 64-bit time comes back from its timespec, whose nanoseconds are below a second and whole
-- microseconds.
timespec_to_time-time_to_timespec :
    (xtime : ℕ)
    → xtime < 2 ^ 64
    → (hammer2_timespec_to_time (hammer2_time_to_timespec xtime) ≡ xtime)
      × ((hammer2_time_to_timespec xtime).tv_nsec < 1_000_000_000)
      × ((hammer2_time_to_timespec xtime).tv_nsec % 1000 ≡ 0)
unfolding hammer2_timespec_to_time hammer2_time_to_timespec
timespec_to_time-time_to_timespec xtime lt = omega arith

-- A timespec in the range that the mount gives the kernel, `s_time_min` to `s_time_max`, comes back
-- from the time made of it but for the nanoseconds within its microsecond; and a stamp of the clock
-- in that range is the same time.
time_to_timespec-timespec_to_time :
    (ts : Timespec64)
    → time_min ≤ ts.tv_sec
    → ts.tv_sec ≤ time_max
    → ts.tv_nsec < 1_000_000_000
    → (hammer2_time_to_timespec (hammer2_timespec_to_time ts)
        ≡ record ts { tv_nsec = ts.tv_nsec / 1000 * 1000 })
      × (hammer2_update_time ts ≡ hammer2_timespec_to_time ts)
unfolding hammer2_timespec_to_time hammer2_time_to_timespec hammer2_update_time
time_to_timespec-timespec_to_time ts low high small = ground arith
