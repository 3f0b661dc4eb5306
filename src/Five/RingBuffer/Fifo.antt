-- ===== src/Five/RingBuffer/Fifo.antt =====
-- A ring buffer against the queue that it holds.
use hnet.Prelude.{
  ℕ, zero, suc, ◌+◌, ◌-◌, ◌%◌, ◌^◌, ◌<◌, ◌≤◌, ◌≡◌, refl, ap, List, [], ◌∷◌, ◌++◌, none, some,
  length, get_elem?, set, take, drop, length-set, length-take, length-drop, ◌⊎◌, inl, inr, dec_lt,
  ℕ_discrete, arith,
}
use hnet.Five.RingBuffer.{RingBuffer, push_back_unchecked, pop_unchecked, size}

-- The elements from `tail` up to `head`.
abbrev pub slice {ℓ} : {A : Type ℓ} → ℕ → ℕ → List A → List A
slice tail head xs = drop tail (take head xs)

mod-wrap : (n cap : ℕ) → n < cap → (n + cap) % cap ≡ n
mod-wrap n cap h = grind arith

mod-twice : (cap : ℕ) → 0 < cap → (cap + cap) % cap ≡ 0
mod-twice cap h = grind arith

module _ {A : Type 0} where
  abbrev pub contents : RingBuffer A → List A
  contents r = slice r.tail r.head r.buffer

  -- The indices are in order, and in the buffer, which is not too long for `size_t`.
  pub record IsValid (r : RingBuffer A) : Type 0 where
    pub ordered : r.tail ≤ r.head
    pub within : r.head ≤ length r.buffer
    pub small : length r.buffer < 2 ^ 63

  take-set :
      (n : ℕ) (xs : List A) (v : A)
      → n < length xs
      → take (suc n) (set xs n v) ≡ take n xs ++ v ∷ []
  take-set n [] v h = absurd (omega arith)
  take-set zero (x ∷ xs) v h = refl
  take-set (suc n) (x ∷ xs) v h = ap (◌∷◌ x) (take-set n xs v (omega arith))

  drop-append : (n : ℕ) (xs ys : List A) → n ≤ length xs → drop n (xs ++ ys) ≡ drop n xs ++ ys
  drop-append zero xs ys h = refl
  drop-append (suc n) [] ys h = absurd (omega arith)
  drop-append (suc n) (x ∷ xs) ys h = drop-append n xs ys (omega arith)

  slice-head :
      (tail head : ℕ) (xs : List A) (v : A)
      → tail < head
      → get_elem? xs tail ≡ some v
      → slice tail head xs ≡ v ∷ slice (suc tail) head xs
  slice-head tail zero xs v h e = absurd (omega arith)
  slice-head tail (suc head) [] v h e = cc
  slice-head zero (suc head) (x ∷ xs) v h e = ground arith
  slice-head (suc tail) (suc head) (x ∷ xs) v h e = slice-head tail head xs v (omega arith) e

  pub length-contents : (r : RingBuffer A) → IsValid r → length (contents r) + r.tail ≡ r.head
  length-contents r v =
      omega (arith, length-drop r.tail (take r.head r.buffer), length-take r.head r.buffer)

  -- A push into a valid buffer that is not at its end appends to what it holds. At the end a push is out of
  -- range, however many elements have been popped: the indices do not go round.
  pub push_refines :
      (r : RingBuffer A) (val : A)
      → IsValid r
      → ((r.head ≡ length r.buffer) × (push_back_unchecked val r ≡ none))
        ⊎ ((r' : RingBuffer A) × (push_back_unchecked val r ≡ some r')
            × (contents r' ≡ contents r ++ val ∷ [])
            × IsValid r')
  unfolding push_back_unchecked
  push_refines r val v = elim (dec_lt r.head (length r.buffer)) [
    | no end ↦ inl (omega arith, ground arith)
    | yes room ↦
        let step : (r.head + 1) % 2 ^ 64 ≡ suc r.head = omega arith in
        inr (
          record r { buffer = set r.buffer r.head val; head = (r.head + 1) % 2 ^ 64 },
          ground arith,
          rw (step, take-set r.head r.buffer val room)
              (drop-append r.tail (take r.head r.buffer) (val ∷ [])
                (omega (arith, length-take r.head r.buffer))),
          omega (arith, length-set r.buffer r.head val),
        )
  ]

  get_elem?-lt : (xs : List A) (i : ℕ) → i < length xs → (v : A) × (get_elem? xs i ≡ some v)
  get_elem?-lt [] i h = absurd (omega arith)
  get_elem?-lt (x ∷ xs) zero h = (x, refl)
  get_elem?-lt (x ∷ xs) (suc i) h = get_elem?-lt xs i (omega arith)

  -- A pop of a valid buffer that is not empty takes the oldest element that it holds.
  pub pop_refines :
      (r : RingBuffer A)
      → IsValid r
      → r.tail < r.head
      → (val : A) × (r' : RingBuffer A) × (pop_unchecked r ≡ some (val, r'))
        × (contents r ≡ val ∷ contents r')
        × IsValid r'
  unfolding pop_unchecked
  pop_refines r v some_left =
      let (val, e) = get_elem?-lt r.buffer r.tail (omega arith) in
      let step : (r.tail + 1) % 2 ^ 64 ≡ suc r.tail = omega arith in
      (
        val,
        record r { tail = (r.tail + 1) % 2 ^ 64 },
        rw (e, pop_unchecked),
        rw step (slice-head r.tail r.head r.buffer val some_left e),
        omega arith,
      )

  -- `size` of a valid buffer is the number of elements, but 0 when it is full from end to end, and a
  -- remainder by 0 when it has no room.
  pub size_lem :
      (r : RingBuffer A)
      → IsValid r
      → ((length r.buffer ≡ 0) × (size r ≡ none))
        ⊎ ((length (contents r) < length r.buffer) × (size r ≡ some (length (contents r))))
        ⊎ ((length (contents r) ≡ length r.buffer) × (size r ≡ some 0))
  unfolding size
  size_lem r v =
      let n = length (contents r) in
      let cap = length r.buffer in
      let held : n + r.tail ≡ r.head = length-contents r v in
      let inner : (cap + r.head + 2 ^ 64 - r.tail) % 2 ^ 64 ≡ n + cap = omega (arith, held) in
      elim (ℕ_discrete cap 0) [
        | yes no_room ↦ inl (no_room, ground arith)
        | no room ↦ elim (dec_lt n cap) [
          | yes below ↦ inr (inl (below, rw inner (ground (arith, mod-wrap n cap below))))
          | no full ↦
              let whole : n ≡ cap = omega (arith, held) in
              inr (inr (whole, rw (inner, whole) (ground (arith, mod-twice cap (omega arith)))))
        ]
      ]
