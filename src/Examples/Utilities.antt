-- ===== src/Examples/Utilities.antt =====
-- The utilities of five, and the addresses, at small inputs.
use mathlib.Core.List.{Perm}
use mathlib.Core.List.Perm
use hnet.Prelude.{
  ◌↔◌, Option, length, subst, ℕ, suc, ◌≡◌, ◌≢◌, ◌⊎◌, refl, ◌==◌, if◌then◌else◌, replicate, List, [],
  ◌∷◌, none, some, arith,
}
use hnet.Prelude.Int.{pos, neg_ℕ, ◌+ℤ◌, ◌-ℤ◌, ◌*ℤ◌, tdiv}
use hnet.Prelude.Results.{err, ok, ◌>>=◌}
use hnet.Five.Time.{Instant, sub_instants}
use hnet.Five.Xrange.{Xrange, make as make_range, div_i64, calc_real_stop}
use hnet.Five.RingBuffer.{RingBuffer, push_back_unchecked}
use hnet.Five.RingBuffer.Fifo.{contents, IsValid, push_refines}
use hnet.Five.ObjectPool.{ObjectPoolLite}
use hnet.Five.ObjectPool.Ownership.{World, Call, takes, gives, clears, run, owned, run-owned}
use hnet.Ring2.Addr.Shape.{AreBytes, Prints, from_parts-shape}
use hnet.Ring2.Addr.{
  SockAddrIn6, from_addr_in6, af_inet, af_inet6, af_unspec, of_in4, ip4_any, ip6_any, ip6_local,
  unreachable, Inet, v4, v6, from_parts, to_string, ip4_local,
}
use hnet.Ring2.Addr.Text.{to_string-from_parts}

abbrev at : ℕ → Instant
at n = record { nanos = pos n }

apart : sub_instants (at 5) (at 8) ≡ some (record { nanos = neg_ℕ 3 })
unfolding sub_instants ◌-ℤ◌
apart = refl

abbrev ten_by_three : Xrange
ten_by_three = record { start = pos 0; stop = pos 12; step = pos 3 }

range_example : make_range (pos 0) (pos 10) (pos 3) ≡ some ten_by_three
unfolding make_range calc_real_stop div_i64 tdiv ◌+ℤ◌ ◌-ℤ◌ ◌*ℤ◌
range_example = refl

stop_of_ten : calc_real_stop (pos 0) (pos 10) (pos 3) ≡ some (pos 12)
unfolding calc_real_stop div_i64 tdiv ◌+ℤ◌ ◌-ℤ◌ ◌*ℤ◌
stop_of_ten = refl

-- A buffer of three with two pushed and one popped.
abbrev queue : RingBuffer ℕ
queue = record { buffer = 5 ∷ 6 ∷ 0 ∷ []; head = 2; tail = 1 }

queue-IsValid : IsValid queue
queue-IsValid = record { ordered = omega arith; within = omega arith; small = omega arith }

push_example :
    ((queue.head ≡ 3) × (push_back_unchecked 7 queue ≡ none))
    ⊎ ((r' : RingBuffer ℕ) × (push_back_unchecked 7 queue ≡ some r')
        × (contents r' ≡ 6 ∷ 7 ∷ [])
        × IsValid r')
push_example = push_refines queue 7 queue-IsValid

-- A factory that numbers its objects.
abbrev numbered : ℕ → ℕ × ℕ
numbered n = (n, suc n)

abbrev empty_pool : ObjectPoolLite ℕ ℕ
empty_pool = record { objects = []; factory = numbered; state = 0 }

abbrev new_world : World ℕ ℕ
new_world = record { pool = empty_pool; held = []; destroyed = []; made = [] }

abbrev calls : List Call
calls = takes ∷ takes ∷ gives 1 ∷ takes ∷ gives 0 ∷ clears ∷ []

run_example : Perm (owned (run new_world calls)) (run new_world calls).made
run_example = run-owned new_world calls Perm.nil

-- Texts are 1 for the loopback address and 2 for its reverse.
abbrev inet : Inet
inet = record {
  pton4 = λ text. elim text [
    | [] ↦ none
    | n ∷ rest ↦ some (if n == 1 then 127 ∷ 0 ∷ 0 ∷ 1 ∷ [] else 1 ∷ 0 ∷ 0 ∷ 127 ∷ [])
  ];
  pton6 = λ text. some (replicate 16 0);
  ntop4 = λ bytes. some (1 ∷ []);
  ntop6 = λ bytes. some (b':' ∷ b':' ∷ []);
  decimal = λ n. n ∷ [];
}

to_string_example :
    ((from_parts inet (1 ∷ []) 1_234 v4 >>= to_string inet) ≡ ok (1 ∷ b':' ∷ 1_234 ∷ []))
    × ((from_parts inet [] 1_234 v6 >>= to_string inet)
        ≡ ok (b'[' ∷ b':' ∷ b':' ∷ b']' ∷ b':' ∷ 1_234 ∷ []))
to_string_example =
    to_string-from_parts inet (1 ∷ []) [] (1 ∷ []) (b':' ∷ b':' ∷ []) (127 ∷ 0 ∷ 0 ∷ 1 ∷ [])
      (replicate 16 0) 1_234 (omega arith) refl refl refl refl

-- An inet that always writes whole addresses.
abbrev home : List ℕ → Option (List ℕ)
home text = some (127 ∷ 0 ∷ 0 ∷ 1 ∷ [])

pton4_whole : (text bytes : List ℕ) → home text ≡ some bytes → (length bytes ≡ 4) × AreBytes bytes
pton4_whole text bytes e =
    let same : 127 ∷ 0 ∷ 0 ∷ 1 ∷ [] ≡ bytes = ground arith in
    subst (λ (bs : List ℕ). (length bs ≡ 4) × AreBytes bs) same
      (refl, (omega arith, (omega arith, (omega arith, (omega arith, tt)))))

pton6_none :
    (text bytes : List ℕ)
    → ◌≡◌ {A = Option (List ℕ)} none (some bytes)
    → (length bytes ≡ 16) × AreBytes bytes
pton6_none text bytes e = cc

abbrev home_inet : Inet
home_inet = record inet { pton4 = home; pton6 = λ text. none }

-- A structure with the family of a local socket.
abbrev local_socket : SockAddrIn6
local_socket = record {
  sin6_family = 1;
  sin6_port = 80;
  sin6_flowinfo = replicate 4 0;
  sin6_addr = replicate 16 0;
}

from_parts-shape_example :
    Prints home_inet (of_in4 (127 ∷ 0 ∷ 0 ∷ 1 ∷ []) 80)
    × Prints home_inet (ip4_any 80)
    × Prints home_inet (ip4_local 80)
    × Prints home_inet (ip6_any 80)
    × Prints home_inet (ip6_local 80)
    × ((to_string home_inet (from_addr_in6 local_socket) ≡ err unreachable)
        ↔ ((1 ≢ af_inet6) × (1 ≢ af_inet) × (1 ≢ af_unspec)))
unfolding from_parts
from_parts-shape_example =
    from_parts-shape home_inet [] 80 v4 (of_in4 (127 ∷ 0 ∷ 0 ∷ 1 ∷ []) 80) local_socket
      (record { four = pton4_whole; sixteen = pton6_none }) refl
