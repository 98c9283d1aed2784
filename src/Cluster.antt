-- ===== src/Cluster.antt =====
-- sys/fs/hammer2/hammer2_cluster.c: what a set of chains, one for each PFS of a cluster, agrees on.
pub mod Check
pub mod Votes
pub mod Quorum
pub mod Verdict
pub mod Elements
mod Tests
use linux_hammer.Base.{
  ℕ, ◌^◌, ◌-◌, ◌/◌, ◌%◌, Bool, true, false, not, ◌||◌, ◌==◌, if◌then◌else◌, List, Option, none,
  some,
}

-- A transaction id or a key is an uint64_t; -1 and `HAMMER2_TID_MAX` are its greatest value.
abbrev pub tid_max : ℕ
tid_max = 2 ^ 64 - 1

abbrev pub inode_type : ℕ
inode_type = 1

-- `HAMMER2_PFSTYPE_xxx`; `other` is any value that the passes have no case for.
pub data PfsType : Type 0 where
  slave soft_slave soft_master master suproot other : PfsType

-- What the passes read of a chain; `addr` is the chain's identity, for `chain == focus`.
pub record Chain : Type 0 where
  pub addr : ℕ
  pub bref_type : ℕ
  pub key : ℕ
  pub keybits : ℕ
  pub modify_tid : ℕ
  pub bytes : ℕ
  pub error : ℕ
  pub pfsboundary : Bool

-- `cluster->array[i]`, its flags one by one, with `pmp->pfs_types[i]`.
pub record Slot : Type 0 where
  pub pfs_type : PfsType
  pub chain : Option Chain
  pub error : ℕ
  pub invalid : Bool
  pub femod : Bool
  pub null : Bool

-- `cluster->flags`, one by one.
pub record Flags : Type 0 where
  pub inode : Bool
  pub locked : Bool
  pub wrhard : Bool
  pub rdhard : Bool
  pub unhard : Bool
  pub nohard : Bool
  pub wrsoft : Bool
  pub rdsoft : Bool
  pub unsoft : Bool
  pub nosoft : Bool
  pub msynced : Bool
  pub ssynced : Bool

abbrev pub no_flags : Flags
no_flags = record {
  inode = false;
  locked = false;
  wrhard = false;
  rdhard = false;
  unhard = false;
  nohard = false;
  wrsoft = false;
  rdsoft = false;
  unsoft = false;
  nosoft = false;
  msynced = false;
  ssynced = false;
}

-- `pfs_nmasters` is that of `cluster->pmp`, and `none` for a null `pmp`.
pub record Cluster : Type 0 where
  pub pfs_nmasters : Option ℕ
  pub slots : List Slot
  pub focus : Option Chain
  pub focus_index : ℕ
  pub error : ℕ
  pub flags : Flags
  pub ddflag : Bool

-- `error & (HAMMER2_ERROR_ETIMEDOUT | HAMMER2_ERROR_ENOTCONN)`: bits 18 and 19
abbrev pub is_unreachable : ℕ → Bool
is_unreachable e = not (e / 2 ^ 18 % 4 == 0)

abbrev pub is_master : PfsType → Bool
is_master master = true
is_master suproot = true
is_master _ = false

-- The pass 2 test of a chain against the passed key.
abbrev pub matches_key : ℕ → Chain → Bool
matches_key key c = key == tid_max || c.key == key
