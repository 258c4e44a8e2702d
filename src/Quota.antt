-- ===== src/Quota.antt =====
-- computeAllocableMemQuota, capio/server/src/storage_allocator.cpp, in its default build
-- (CAPIO_MEMORY_CHECKS_FULL). What it reads from /proc/meminfo and from the cgroup's files is the
-- argument; reading and parsing these files is not modelled here.
use capio.Base.{ℕ, ◌-◌, ◌*◌, ◌%◌, ◌^◌, ◌≤◌, min, Option, none, some, leb, if◌then◌else◌, arith}

pub record Readings : Type 0 where
  -- MemAvailable, in kB, if the key is found.
  pub mem_available : Option ℕ
  -- The limit and the usage of the cgroup, if there is one with a limit and its usage can be read.
  pub cgroup : Option (ℕ × ℕ)
  -- The reclaimable page cache, 0 if memory.stat does not say.
  pub inactive : ℕ

-- What the host has, capped by what the cgroup still allows. `-` stops at 0, as the code's tests do.
unfoldable pub available : Readings → ℕ → ℕ
available r kb = elim r.cgroup [
  | none ↦ (kb * 1024) % 2 ^ 64
  | some (limit, usage) ↦ min ((kb * 1024) % 2 ^ 64) (limit - (usage - r.inactive))
]

-- A negative request does not occur: sizes are natural numbers.
unfoldable pub compute_allocable_mem_quota : Readings → ℕ → ℕ
compute_allocable_mem_quota r requested_size = elim r.mem_available [
  | none ↦ requested_size
  | some kb ↦ if leb requested_size (available r kb) then requested_size else available r kb
]

pub quota-le : (r : Readings) (n : ℕ) → compute_allocable_mem_quota r n ≤ n
unfolding compute_allocable_mem_quota
quota-le r n = ground arith
