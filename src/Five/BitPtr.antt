-- ===== src/Five/BitPtr.antt =====
-- five/five/bit_ptr.h: a tag in the low bits of an aligned pointer. Pointers are 64-bit words, and
-- `n_bits` is the template's argument. The pointers that `new` returns are arguments.
pub mod Tags
pub mod Owners
use Prim.Native.Nat.{bit_and, bit_or}
use hnet.Prelude.{ℕ, ◌-◌, ◌%◌, ◌^◌, Bool, not, Option, none, some, leb, ◌==◌, if◌then◌else◌}

-- `~x` on a 64-bit word.
abbrev pub bit_not : ℕ → ℕ
bit_not x = 2 ^ 64 - 1 - x

-- `BitPointer`.
abbrev pub mask : ℕ → ℕ
mask n_bits = 2 ^ n_bits - 1

abbrev pub alignment : ℕ → ℕ
alignment n_bits = 2 ^ n_bits

-- The members of `EitherPtr2`. Those of `BitPointer` with these names are meant to do the same, but
-- cast a pointer by `static_cast`, so that they would not compile; nothing instantiates them.
unfoldable pub get_bits : ℕ → ℕ → ℕ
get_bits n_bits t = bit_and t (mask n_bits)

unfoldable pub set_bits : ℕ → ℕ → ℕ → ℕ
set_bits n_bits bits t = bit_or (bit_and t (bit_not (mask n_bits))) (bit_and bits (mask n_bits))

unfoldable pub get : ℕ → ℕ → ℕ
get n_bits t = bit_and t (bit_not (mask n_bits))

-- What `make` is meant to do: `raw` is what `new` returned, and `none` the failed check of its
-- alignment. `BitPointer::make` itself is not instantiated, and would not compile.
unfoldable pub make_pointer : ℕ → ℕ → Option ℕ
make_pointer n_bits raw = if raw % alignment n_bits == 0 then some raw else none

-- `EitherPtr`, whose pointers have one bit.
unfoldable pub make_first : ℕ → Option ℕ
unfolding make_pointer
make_first raw = make_pointer 1 raw

unfoldable pub make_second : ℕ → Option ℕ
unfolding make_pointer
make_second raw = make_pointer 1 raw

unfoldable pub is_second : ℕ → Bool
unfolding get_bits
is_second p = not (get_bits 1 p == 0)

unfoldable pub is_first : ℕ → Bool
unfolding is_second
is_first p = not (is_second p)

unfoldable pub get_first : ℕ → Option ℕ
unfolding is_first get
get_first p = if is_first p then some (get 1 p) else none

unfoldable pub get_second : ℕ → Option ℕ
unfolding is_second get
get_second p = if is_second p then some (get 1 p) else none

-- `EitherPtr::from_raw` and `get_raw`: the word as it is.
unfoldable pub from_raw : ℕ → ℕ
from_raw ptr = ptr

unfoldable pub get_raw : ℕ → ℕ
get_raw p = p

-- `EitherPtr2` over `n` types.
unfoldable pub log2 : ℕ → ℕ
log2 n =
    if leb n 1
    then 0
    else (if leb n 2
        then 1
        else (if leb n 4
            then 2
            else (if leb n 8 then 3 else (if leb n 16 then 4 else (if leb n 32 then 5 else 0)))))

unfoldable pub bit_count : ℕ → ℕ
unfolding log2
bit_count n = log2 n

unfoldable pub get_index : ℕ → ℕ → ℕ
unfolding get_bits
get_index n p = get_bits (bit_count n) p

unfoldable pub get_aligned : ℕ → ℕ → ℕ
unfolding get
get_aligned n p = get (bit_count n) p

-- `construct<N>`: `raw` is what `new` returned, and `none` the failed check of its alignment.
unfoldable pub construct : ℕ → ℕ → ℕ → Option ℕ
unfolding set_bits
construct n index raw =
    if raw % alignment (bit_count n) == 0 then some (set_bits (bit_count n) index raw) else none

-- `EitherPtr2(ptr)`, `get_raw` and `get<N>`.
unfoldable pub either2 : ℕ → ℕ
either2 ptr = ptr

unfoldable pub raw_of : ℕ → ℕ
raw_of p = p

unfoldable pub object_of : ℕ → ℕ → ℕ
unfolding get_aligned
object_of n p = get_aligned n p
