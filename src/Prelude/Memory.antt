-- ===== src/Prelude/Memory.antt =====
-- Byte buffers of fixed length, and the writes into them.
use hnet.Prelude.Lists.{length, take}
use Prim.Native.Nat.{ℕ, zero, suc, ◌+◌, ◌≤◌}
use mathlib.Core.Path.{◌≡◌, refl, ap}
use mathlib.Core.List.{List, [], ◌∷◌, ◌++◌}
use native.Mathlib.Omega.{arith}

-- `src` written over the front of a buffer. A write past the end has no place in the model: what
-- does not fit is cut off, and the code's checks must rule it out.
unfoldable pub overwrite : List ℕ → List ℕ → List ℕ
overwrite [] buf = buf
overwrite (x ∷ xs) [] = []
overwrite (x ∷ xs) (b ∷ bs) = x ∷ overwrite xs bs

-- `memcpy(buf + at, src, n)` for the `n` bytes of `src`.
unfoldable pub write_at : ℕ → List ℕ → List ℕ → List ℕ
unfolding overwrite
write_at zero src buf = overwrite src buf
write_at (suc at) src [] = []
write_at (suc at) src (b ∷ bs) = b ∷ write_at at src bs

pub length-overwrite : (xs buf : List ℕ) → length (overwrite xs buf) ≡ length buf
unfolding overwrite
length-overwrite [] buf = refl
length-overwrite (x ∷ xs) [] = refl
length-overwrite (x ∷ xs) (b ∷ bs) = ap suc (length-overwrite xs bs)

pub length-write_at : (at : ℕ) (xs buf : List ℕ) → length (write_at at xs buf) ≡ length buf
unfolding write_at
length-write_at zero xs buf = length-overwrite xs buf
length-write_at (suc at) xs [] = refl
length-write_at (suc at) xs (b ∷ bs) = ap suc (length-write_at at xs bs)

-- What was written is at the front.
pub take-overwrite :
    (xs buf : List ℕ) → length xs ≤ length buf → take (length xs) (overwrite xs buf) ≡ xs
unfolding overwrite
take-overwrite [] buf h = refl
take-overwrite (x ∷ xs) [] h = absurd (omega arith)
take-overwrite (x ∷ xs) (b ∷ bs) h = ap (◌∷◌ x) (take-overwrite xs bs (omega arith))

-- A write that begins where a front part ends follows it.
pub take-write_at :
    (n : ℕ) (xs buf : List ℕ)
    → n + length xs ≤ length buf
    → take (n + length xs) (write_at n xs buf) ≡ take n buf ++ xs
unfolding write_at
take-write_at zero xs buf h =
    let e : 0 + length xs ≡ length xs = omega arith in rw e (take-overwrite xs buf (omega arith))
take-write_at (suc n) xs [] h = absurd (omega arith)
take-write_at (suc n) xs (b ∷ bs) h =
    let e : suc n + length xs ≡ suc (n + length xs) = omega arith in
    rw e (ap (◌∷◌ b) (take-write_at n xs bs (omega arith)))
