-- ===== src/Flush/Trans.antt =====
-- The transactions of a PFS: the word `pmp->trans.flags`, and each call on it.
use linux_hammer.Base.{
  ℕ, ◌+◌, ◌-◌, ◌%◌, ◌^◌, Bool, true, false, not, ◌&&◌, ◌||◌, ◌==◌, if◌then◌else◌, Option, none,
  some,
}
pub mod Threads
pub mod Invariant
pub mod Safety

-- `HAMMER2_TRANS_xxx`, one by one.
pub record TransFlags : Type 0 where
  pub isflush : Bool
  pub bufcache : Bool
  pub sideq : Bool
  pub waiting : Bool
  pub rescan : Bool

abbrev pub no_trans_flags : TransFlags
no_trans_flags = record {
  isflush = false;
  bufcache = false;
  sideq = false;
  waiting = false;
  rescan = false;
}

abbrev pub with_flags : TransFlags → TransFlags → TransFlags
with_flags a b = record {
  isflush = a.isflush || b.isflush;
  bufcache = a.bufcache || b.bufcache;
  sideq = a.sideq || b.sideq;
  waiting = a.waiting || b.waiting;
  rescan = a.rescan || b.rescan;
}

abbrev pub without_flags : TransFlags → TransFlags → TransFlags
without_flags a b = record {
  isflush = a.isflush && not b.isflush;
  bufcache = a.bufcache && not b.bufcache;
  sideq = a.sideq && not b.sideq;
  waiting = a.waiting && not b.waiting;
  rescan = a.rescan && not b.rescan;
}

-- `HAMMER2_TRANS_MASK`, and 1.
abbrev pub count_size : ℕ
count_size = 2 ^ 24

-- The word: its flags, and what is below them. A carry out of the count is left out: it takes more
-- transactions than the count has room for.
pub record Trans : Type 0 where
  pub flags : TransFlags
  pub count : ℕ

abbrev pub enter : TransFlags → Trans → Trans
enter flags t = record { flags = with_flags t.flags flags; count = t.count + 1 }

-- A turn of the loop of `hammer2_trans_init`, under `trans_lock`: the word, and whether the caller sleeps
-- and tries again.
unfoldable pub init_round : TransFlags → Trans → Trans × Bool
init_round flags t =
    if flags.isflush
    then (if t.flags.isflush
        then (
          record t { flags = with_flags t.flags (record no_trans_flags { waiting = true }) },
          true,
        )
        else (enter flags t, false))
    else (enter flags t, false)

unfoldable pub hammer2_trans_setflags : TransFlags → Trans → Trans
hammer2_trans_setflags flags t = record t { flags = with_flags t.flags flags }

-- The word, and whether the waiters are woken up.
unfoldable pub hammer2_trans_clearflags : TransFlags → Trans → Trans × Bool
hammer2_trans_clearflags flags t =
    (record t { flags = without_flags t.flags flags }, t.flags.waiting && flags.waiting)

-- The flags that `hammer2_trans_done` takes down: WAITING also at the end of a flush, and if one other
-- transaction is left beside a flush.
abbrev pub done_flags : TransFlags → Trans → TransFlags
done_flags flags t = record flags {
  waiting = flags.waiting || flags.isflush || (t.flags.isflush && t.count % count_size == 2);
}

-- `none` is a failed `KKASSERT`; else as `hammer2_trans_clearflags`.
unfoldable pub hammer2_trans_done : TransFlags → Trans → Option (Trans × Bool)
hammer2_trans_done flags t =
    if t.count % count_size == 0
    then none
    else some (
      record { flags = without_flags t.flags (done_flags flags t); count = t.count - 1 },
      t.flags.waiting && (done_flags flags t).waiting,
    )
