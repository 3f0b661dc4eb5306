-- ===== src/Examples/Tables.antt =====
-- A system with a table of open descriptors.
use hnet.Prelude.{
  ℕ, suc, ◌≡◌, refl, ap, Bool, true, List, [], ◌∷◌, Option, none, some, if◌then◌else◌, arith,
}
use hnet.Prelude.Int.{ℤ, pos, negsuc, ◌≤ℤ◌, ◌<ℤ◌}
use hnet.Ring2.Sock.{Sockets}
use hnet.Ring2.Sock.Lifetime.{IsTracked}

-- The open descriptors, the next one to open if any is left, and whether options are known.
pub record Table : Type 0 where
  pub opened : List ℤ
  pub next : Option ℕ
  pub has_options : Bool

abbrev open_next : Option ℕ → Table → ℤ × Table
open_next none t = (negsuc 22, t)
open_next (some n) t = (pos n, record t { opened = pos n ∷ t.opened; next = some (suc n) })

abbrev tail : List ℤ → List ℤ
tail [] = []
tail (x ∷ xs) = xs

abbrev pub table_os : Sockets
table_os = record {
  S = Table;
  socket = λ d k t. open_next t.next t;
  setsockopt = λ fd o val t. (if t.has_options then pos 0 else negsuc 0, t);
  bind = λ fd a t. (pos 0, t);
  listen = λ fd n t. (pos 0, t);
  close = λ fd t. record t { opened = tail t.opened };
}

pub opens :
    (t : Table)
    → pos 0 ≤ℤ (open_next t.next t).0
    → (open_next t.next t).1.opened ≡ (open_next t.next t).0 ∷ t.opened
opens t h = ground arith

pub refuses :
    (t : Table) → (open_next t.next t).0 <ℤ pos 0 → (open_next t.next t).1.opened ≡ t.opened
refuses t h = ground arith

abbrev pub table_tracked : IsTracked table_os
table_tracked = record {
  opened = λ t. t.opened;
  at_socket = λ d k t h. opens t h;
  at_failure = λ d k t h. refuses t h;
  at_setsockopt = λ fd o val t. refl;
  at_close = λ fd fds t e. ap tail e;
}

abbrev pub full_of_three : Table
full_of_three = record { opened = pos 2 ∷ pos 1 ∷ pos 0 ∷ []; next = some 3; has_options = true }
