-- ===== src/Five/BitPtr/Tags.antt =====
-- A tagged pointer gives back its pointer and its tag.
use Prim.Native.Nat.{bit_and}
use hnet.Prelude.{
  ℕ, zero, suc, ◌+◌, ◌*◌, ◌/◌, ◌%◌, ◌^◌, ◌<◌, ◌≤◌, ◌≡◌, ◌∙◌, some, none, true, arith,
}
use hnet.Prelude.Bits.{and-low_mask, and-high_mask, or-low}
use hnet.Five.BitPtr.{
  alignment, get_bits, set_bits, get, bit_count, get_index, get_aligned, construct, make_first,
  make_second, is_first, get_first, get_second,
}
use native.Mathlib.Nat.{one-le-pow, mod-eq_of_lt}

-- Enough bits for `n` tags, and no more than needed: half as many would not do.
pub bit_count_lem :
    (n : ℕ) → 1 ≤ n → n ≤ 32 → (bit_count n ≤ 5) × (n ≤ 2 ^ bit_count n) × (2 ^ bit_count n < 2 * n)
unfolding bit_count
bit_count_lem n low high = (ground arith, ground arith, ground arith)

get_bits-mod : (k t : ℕ) → get_bits k t ≡ t % 2 ^ k
unfolding get_bits
get_bits-mod k t = and-low_mask k t

get-div : (k t : ℕ) → k ≤ 5 → t < 2 ^ 64 → get k t ≡ t / 2 ^ k * 2 ^ k
unfolding get
get-div zero t h b = and-high_mask 0 64 t (omega arith)
get-div (suc zero) t h b = and-high_mask 1 63 t (omega arith)
get-div (suc (suc zero)) t h b = and-high_mask 2 62 t (omega arith)
get-div (suc (suc (suc zero))) t h b = and-high_mask 3 61 t (omega arith)
get-div (suc (suc (suc (suc zero)))) t h b = and-high_mask 4 60 t (omega arith)
get-div (suc (suc (suc (suc (suc zero))))) t h b = and-high_mask 5 59 t (omega arith)
get-div (suc (suc (suc (suc (suc (suc k)))))) t h b = absurd (omega arith)

pub set_bits-sum :
    (k bits t : ℕ) → k ≤ 5 → t < 2 ^ 64 → set_bits k bits t ≡ t / 2 ^ k * 2 ^ k + bits % 2 ^ k
unfolding set_bits get get_bits
set_bits-sum k bits t h b =
    rw (get-div k t h b, get_bits-mod k bits)
      (or-low k t (bits % 2 ^ k) (omega (arith, one-le-pow k 2)))

mod-fields : (q p r : ℕ) → r < p → ((q * p + r) % p ≡ r) × ((q * p + r) / p ≡ q)
mod-fields q p r h = grind arith

word-lt : (k t r : ℕ) → k ≤ 5 → t < 2 ^ 64 → r < 2 ^ k → t / 2 ^ k * 2 ^ k + r < 2 ^ 64
word-lt zero t r h b l = omega arith
word-lt (suc zero) t r h b l = omega arith
word-lt (suc (suc zero)) t r h b l = omega arith
word-lt (suc (suc (suc zero))) t r h b l = omega arith
word-lt (suc (suc (suc (suc zero)))) t r h b l = omega arith
word-lt (suc (suc (suc (suc (suc zero))))) t r h b l = omega arith
word-lt (suc (suc (suc (suc (suc (suc k)))))) t r h b l = absurd (omega arith)

-- Setting the bits of a word changes the tag alone: the word then has the low bits of what was set,
-- and the pointer that it had. This holds for up to 5 bits.
pub set_bits_lem :
    (k bits t : ℕ)
    → k ≤ 5
    → t < 2 ^ 64
    → (get_bits k (set_bits k bits t) ≡ bits % 2 ^ k) × (get k (set_bits k bits t) ≡ get k t)
set_bits_lem k bits t h b =
    let p = 2 ^ k in
    let low : bits % p < p = omega (arith, one-le-pow k 2) in
    let fields = mod-fields (t / p) p (bits % p) low in
    let top : t / p * p + bits % p < 2 ^ 64 = word-lt k t (bits % p) h b low in
    (
      rw (set_bits-sum k bits t h b, get_bits-mod k (t / p * p + bits % p)) fields.0,
      rw (
        set_bits-sum k bits t h b,
        get-div k (t / p * p + bits % p) h top,
        get-div k t h b,
        fields.1,
      ),
    )

-- An object of the type numbered `index` of up to 32 types, at an address that is aligned as the
-- allocation asks, is built, and its word gives back the number of its type and the address.
pub construct_lem :
    (n index raw : ℕ)
    → 1 ≤ n
    → n ≤ 32
    → index < n
    → raw < 2 ^ 64
    → raw % alignment (bit_count n) ≡ 0
    → (p : ℕ) × (construct n index raw ≡ some p) × (get_index n p ≡ index) × (get_aligned n p ≡ raw)
unfolding construct get_index get_aligned
construct_lem n index raw low high tag word aligned =
    let k = bit_count n in
    let bits = bit_count_lem n low high in
    let kept = set_bits_lem k index raw bits.0 word in
    let small : index < 2 ^ k = omega (arith, bits.1) in
    (
      set_bits k index raw,
      ground (arith, aligned),
      kept.0 ∙ mod-eq_of_lt small,
      kept.1 ∙ get-div k raw bits.0 word ∙ omega (arith, one-le-pow k 2),
    )

-- A pointer that `make_second` makes has no tag: it passes for the first kind, whose pointer it then
-- gives, and asking for the second kind fails. It is what `make_first` makes of the same memory.
pub make_second-is_first :
    (raw p : ℕ)
    → raw < 2 ^ 64
    → make_second raw ≡ some p
    → (make_first raw ≡ some p)
      × (is_first p ≡ true)
      × (get_first p ≡ some raw)
      × (get_second p ≡ none)
unfolding make_second make_first is_first get_first get_second
make_second-is_first raw p word made =
    let same : raw ≡ p = ground (arith) in
    let even : raw % 2 ≡ 0 = ground arith in
    let low : bit_and p 1 ≡ p % 2 = and-low_mask 1 p in
    let high : get 1 p ≡ p / 2 * 2 = get-div 1 p (omega arith) (omega (arith, same)) in
    (made, ground (arith, low, even), ground (arith, low, even, high), ground (arith, low, even))
