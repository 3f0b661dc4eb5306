-- ===== src/Netring/Request.antt =====
-- netring/netring/uf.h: `Request` owns the buffer of a message, and hands it on when it is moved.
-- A buffer is known by its address. A call says which buffers it frees; `none` is undefined behaviour.
pub mod Moves
use hnet.Prelude.{
  ℕ, zero, suc, Bool, true, false, List, [], ◌∷◌, Option, none, some, ltb, if◌then◌else◌,
}
use hnet.Prelude.Int.{ℤ, pos}
use hnet.Ring2.Kernel.{UsefulCqe}

-- `struct sockaddr_in6`, as far as it is used.
pub record SockAddr6 : Type 0 where
  pub sin6_port : ℕ
  pub sin6_addr : List ℕ

-- The two pointers of the header, to the object's own `iov` and `addr`, are there or null.
pub record Request : Type 0 where
  pub iov_base : Option ℕ
  pub iov_len : ℕ
  pub msg_iov : Bool
  pub msg_iovlen : ℕ
  pub msg_name : Bool
  pub msg_namelen : ℕ
  pub addr : SockAddr6
  pub cqe : UsefulCqe

abbrev pub zero_addr : SockAddr6
zero_addr = record { sin6_port = 0; sin6_addr = [] }

abbrev pub zero_cqe : UsefulCqe
zero_cqe = record { user_data = 0; res = pos 0 }

-- The constructor; `base` is what `malloc` returned.
unfoldable pub make_request : ℕ → ℕ → Request
make_request base iov_len = record {
  iov_base = some base;
  iov_len = iov_len;
  msg_iov = true;
  msg_iovlen = 1;
  msg_name = true;
  msg_namelen = 28;
  addr = zero_addr;
  cqe = zero_cqe;
}

-- `free`, which does nothing for a null pointer.
abbrev pub free : Option ℕ → List ℕ
free none = []
free (some base) = base ∷ []

-- The loop of `clear` over `msg_iovlen` entries; there is one, of an object that has one.
unfoldable pub free_iovs : ℕ → Request → Option (Request × List ℕ)
free_iovs zero r = some (r, [])
free_iovs (suc zero) r =
    if r.msg_iov then some (record r { iov_len = 0 }, free r.iov_base) else none
free_iovs (suc (suc n)) r = none

-- The end of `clear`; `iov_base` keeps its value.
abbrev pub forget : Option (Request × List ℕ) → Option (Request × List ℕ)
forget none = none
forget (some (r, freed)) =
    some (record r { msg_iov = false; msg_name = false; msg_namelen = 0; msg_iovlen = 0 }, freed)

unfoldable pub clear : Request → Option (Request × List ℕ)
unfolding free_iovs
clear r = forget (free_iovs r.msg_iovlen r)

-- The loop of the move constructor over the entries of the source, `other`.
abbrev pub disown : Request → Request
disown other = if ltb 0 other.msg_iovlen then record other { iov_base = none } else other

-- The move constructor: the new object, what is left of the old one, and what was freed.
unfoldable pub move : Request → Option (Request × Request × List ℕ)
unfolding clear
move other = elim (clear (disown other)) [
  | none ↦ none
  | some (husk, freed) ↦ some (record other { msg_iov = true; msg_name = true }, husk, freed)
]

-- The destructor.
unfoldable pub destroy : Request → Option (List ℕ)
unfolding clear
destroy r = elim (clear r) [ none ↦ none | some (rest, freed) ↦ some freed ]

unfoldable pub prepare_for_send : SockAddr6 → Request → Request
prepare_for_send to r = record r { addr = to }
