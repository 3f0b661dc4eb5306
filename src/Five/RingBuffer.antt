-- ===== src/Five/RingBuffer.antt =====
-- five/five/ring_buffer.h. An index into the vector that is out of range is undefined behaviour, and
-- so is a remainder by 0: `none`.
pub mod Fifo
use hnet.Prelude.{
  ℕ, suc, ◌+◌, ◌-◌, ◌%◌, ◌^◌, List, Option, none, some, length, get_elem?, set, replicate, ltb,
  ◌==◌, if◌then◌else◌,
}

pub record RingBuffer (A : Type 0) : Type 0 where
  pub buffer : List A
  pub head : ℕ
  pub tail : ℕ

module _ {A : Type 0} where
  -- The constructor: `max_size` copies of the default value.
  unfoldable pub make : A → ℕ → RingBuffer A
  make default max_size = record { buffer = replicate max_size default; head = 0; tail = 0 }

  unfoldable pub push_back_unchecked : A → RingBuffer A → Option (RingBuffer A)
  push_back_unchecked val r =
      if ltb r.head (length r.buffer)
      then some (record r { buffer = set r.buffer r.head val; head = (r.head + 1) % 2 ^ 64 })
      else none

  unfoldable pub pop_unchecked : RingBuffer A → Option (A × RingBuffer A)
  pop_unchecked r = elim (get_elem? r.buffer r.tail) [
    | none ↦ none
    | some val ↦ some (val, record r { tail = (r.tail + 1) % 2 ^ 64 })
  ]

  -- The sum and the difference are taken modulo 2 ^ 64 before the remainder.
  unfoldable pub size : RingBuffer A → Option ℕ
  size r =
      if length r.buffer == 0
      then none
      else some ((length r.buffer + r.head + 2 ^ 64 - r.tail) % 2 ^ 64 % length r.buffer)
