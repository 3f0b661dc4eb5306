-- ===== src/Five/BitPtr/Owners.antt =====
-- five/five/bit_ptr.h: what the tagged pointers make and delete. `raw` is where `new` puts an object.
pub mod Deletion
use hnet.Prelude.{ℕ, true, Option, none, some, if◌then◌else◌}
use hnet.Prelude.Options.{◌>>=◌}
use hnet.Five.Objects.{Heap, set_live, delete}
use hnet.Five.BitPtr.{is_first, construct}

-- `~BitPointer` deletes the word that it holds, whatever its low bits are. The members that would set
-- such bits are not instantiated anywhere, and would not compile.
unfoldable pub destroy_pointer : ℕ → Heap → Option Heap
destroy_pointer t live = delete t live

-- `~EitherPtr`.
unfoldable pub destroy_either : ℕ → Heap → Option Heap
unfolding destroy_pointer
destroy_either p live = if is_first p then destroy_pointer p live else destroy_pointer p live

-- `EitherPtr2::construct`, and `~EitherPtr2`, whose `destroy` is empty.
unfoldable pub new_either2 : ℕ → ℕ → ℕ → Heap → Option (ℕ × Heap)
unfolding set_live
new_either2 n index raw live = do p ← construct n index raw; some (p, set_live raw true live)

unfoldable pub destroy_either2 : ℕ → Heap → Heap
destroy_either2 p live = live
