-- ===== src/Five/Objects.antt =====
-- The objects that `new` makes and `delete` ends, as five/five/object_pool.h and bit_ptr.h use them.
use hnet.Prelude.{ℕ, Bool, false, Option, none, some, ◌==◌, if◌then◌else◌}

-- Which objects are there: made by `new` and not deleted yet.
abbrev pub Heap : Type 0
Heap = ℕ → Bool

unfoldable pub set_live : ℕ → Bool → Heap → Heap
set_live a b live x = if x == a then b else live x

-- `delete` of what is not there is undefined behaviour: `none`.
unfoldable pub delete : ℕ → Heap → Option Heap
unfolding set_live
delete a live = if live a then some (set_live a false live) else none
