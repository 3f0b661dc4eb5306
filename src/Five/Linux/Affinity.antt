-- ===== src/Five/Linux/Affinity.antt =====
-- Which processors a mask selects.
use Prim.Native.Nat.{bit_and}
use hnet.Prelude.{ℕ, zero, suc, ◌+◌, ◌*◌, ◌%◌, ◌^◌, ◌<◌, ◌≡◌, refl, ap, ◌∙◌, List, [], arith}
use hnet.Prelude.Bits.{and-bit}
use hnet.Prelude.Int.{ℤ}
use hnet.Five.Linux.{cpu_loop, set_affinity}

cpu_loop-cong :
    (left i m n : ℕ)
    → ((j : ℕ) → j < i + left → bit_and m (2 ^ j) ≡ bit_and n (2 ^ j))
    → cpu_loop left i m ≡ cpu_loop left i n
unfolding cpu_loop
cpu_loop-cong zero i m n same = refl
cpu_loop-cong (suc left) i m n same =
    ground
      (arith, same i (omega arith), cpu_loop-cong left (i + 1) m n (λ j h. same j (omega arith)))

low_bit : (m j : ℕ) → j < 8 → bit_and m (2 ^ j) ≡ bit_and (m % 256) (2 ^ j)
low_bit m zero h = omega (arith, and-bit 0 m, and-bit 0 (m % 256))
low_bit m (suc zero) h = omega (arith, and-bit 1 m, and-bit 1 (m % 256))
low_bit m (suc (suc zero)) h = omega (arith, and-bit 2 m, and-bit 2 (m % 256))
low_bit m (suc (suc (suc zero))) h = omega (arith, and-bit 3 m, and-bit 3 (m % 256))
low_bit m (suc (suc (suc (suc zero)))) h = omega (arith, and-bit 4 m, and-bit 4 (m % 256))
low_bit m (suc (suc (suc (suc (suc zero))))) h = omega (arith, and-bit 5 m, and-bit 5 (m % 256))
low_bit m (suc (suc (suc (suc (suc (suc zero)))))) h =
    omega (arith, and-bit 6 m, and-bit 6 (m % 256))
low_bit m (suc (suc (suc (suc (suc (suc (suc zero))))))) h =
    omega (arith, and-bit 7 m, and-bit 7 (m % 256))
low_bit m (suc (suc (suc (suc (suc (suc (suc (suc j)))))))) h = absurd (omega arith)

-- Only the low 8 of the 64 bits of the mask count: two masks that agree there select the same
-- processors, and one that selects processors from 8 on alone asks for none at all.
pub set_affinity_low :
    (sched_setaffinity : List ℕ → ℤ) (mask high : ℕ)
    → (set_affinity sched_setaffinity mask ≡ set_affinity sched_setaffinity (mask % 256))
      × (set_affinity sched_setaffinity (high * 256) ≡ sched_setaffinity [])
unfolding set_affinity
set_affinity_low sched_setaffinity mask high = (
  ap sched_setaffinity (cpu_loop-cong 8 0 mask (mask % 256) (λ j h. low_bit mask j (omega arith))),
  ap sched_setaffinity (
      cpu_loop-cong 8 0 (high * 256) 0 (λ j h.
        low_bit (high * 256) j (omega arith) ∙ ap (λ (t : ℕ). bit_and t (2 ^ j)) (omega arith))
      ∙ refl),
)
