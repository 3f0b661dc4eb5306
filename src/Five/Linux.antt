-- ===== src/Five/Linux.antt =====
-- five/five/linux.cc: the processors that a thread may run on.
pub mod Affinity
use Prim.Native.Nat.{bit_and}
use hnet.Prelude.{ℕ, zero, suc, ◌+◌, ◌^◌, List, [], ◌∷◌, ◌==◌, if◌then◌else◌}
use hnet.Prelude.Int.{ℤ}

-- `sizeof(mask)` for a `u64`.
abbrev pub mask_size : ℕ
mask_size = 8

-- The loop over `i`, with the rounds that are left: the processors that `CPU_SET` puts in.
unfoldable pub cpu_loop : ℕ → ℕ → ℕ → List ℕ
cpu_loop zero i mask = []
cpu_loop (suc left) i mask =
    let rest = cpu_loop left (i + 1) mask in if bit_and mask (2 ^ i) == 0 then rest else i ∷ rest

unfoldable pub cpus : ℕ → List ℕ
unfolding cpu_loop
cpus mask = cpu_loop mask_size 0 mask

-- `sched_setaffinity` on the calling thread is an argument.
unfoldable pub set_affinity : (List ℕ → ℤ) → ℕ → ℤ
unfolding cpus
set_affinity sched_setaffinity mask = sched_setaffinity (cpus mask)
