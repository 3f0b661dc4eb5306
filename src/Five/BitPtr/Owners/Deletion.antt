-- ===== src/Five/BitPtr/Owners/Deletion.antt =====
-- What an `EitherPtr2` gives back, and what its destructor leaves.
use hnet.Prelude.{ℕ, ◌%◌, ◌^◌, ◌<◌, ◌≤◌, ◌≡◌, refl, true, some, arith}
use hnet.Five.Objects.{Heap, set_live}
use hnet.Five.BitPtr.{alignment, get_index, get_aligned, bit_count}
use hnet.Five.BitPtr.Tags.{construct_lem}
use hnet.Five.BitPtr.Owners.{new_either2, destroy_either2}

-- An object of the type numbered `index` of up to 32 types, at an address that is aligned as the
-- allocation asks, is made. Its pointer gives back the number of its type and the address, and when
-- the pointer is destroyed the object is still there, as is every other one.
pub destroy_either2-new_either2 :
    (n index raw : ℕ) (live : Heap)
    → 1 ≤ n
    → n ≤ 32
    → index < n
    → raw < 2 ^ 64
    → raw % alignment (bit_count n) ≡ 0
    → (p : ℕ) × (live' : Heap) × (new_either2 n index raw live ≡ some (p, live'))
      × (get_index n p ≡ index)
      × (get_aligned n p ≡ raw)
      × (destroy_either2 p live' raw ≡ true)
      × ((a : ℕ) → live a ≡ true → destroy_either2 p live' a ≡ true)
unfolding new_either2 destroy_either2 set_live
destroy_either2-new_either2 n index raw live low high tag word aligned =
    let (p, made, number, address) = construct_lem n index raw low high tag word aligned in
    (
      p,
      set_live raw true live,
      rw (made) refl,
      number,
      address,
      ground arith,
      λ a there. ground (arith, there),
    )
