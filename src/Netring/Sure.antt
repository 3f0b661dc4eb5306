-- ===== src/Netring/Sure.antt =====
-- netring/netring/sure.h: `Request` of the prototype, which has a destructor and no move constructor,
-- so that it is copied where it looks moved. Objects and buffers are known by their addresses.
pub mod Copies
use hnet.Prelude.{ℕ, zero, suc, true, Option, none, some, ◌==◌, if◌then◌else◌}
use hnet.Prelude.Options.{◌>>=◌}
use hnet.Five.Objects.{Heap, set_live, delete}

-- `msg_iov` and `msg_name` are the addresses of the object whose `iov` and `addr` they point to.
pub record Request : Type 0 where
  pub iov_base : ℕ
  pub iov_len : ℕ
  pub msg_iov : ℕ
  pub msg_iovlen : ℕ
  pub msg_name : ℕ
  pub msg_namelen : ℕ

-- The requests that there are, by address, and the buffers.
pub record Memory : Type 0 where
  pub requests : ℕ → Option Request
  pub buffers : Heap

unfoldable pub set_request : ℕ → Option Request → (ℕ → Option Request) → ℕ → Option Request
set_request at r requests x = if x == at then r else requests x

-- The constructor, of an object at `at`; `base` is what `malloc` returned.
unfoldable pub make_request : ℕ → ℕ → ℕ → Memory → Memory
unfolding set_request set_live
make_request at base iov_len m = record {
  requests =
      set_request at
        (some (record {
          iov_base = base;
          iov_len = iov_len;
          msg_iov = at;
          msg_iovlen = 1;
          msg_name = at;
          msg_namelen = 28;
        }))
        m.requests;
  buffers = set_live base true m.buffers;
}

-- The copy constructor that the compiler makes: member by member.
unfoldable pub copy_request : ℕ → ℕ → Memory → Option Memory
unfolding set_request
copy_request from to m = do
  r ← m.requests from
  some (record m { requests = set_request to (some r) m.requests })

-- The loop of the destructor, over the entries that `msg_iov` points to. An object has one. `none` is
-- undefined behaviour: the object is not there, or the buffer is not.
unfoldable pub free_iovs : ℕ → ℕ → Memory → Option Memory
unfolding delete
free_iovs zero at m = some m
free_iovs (suc zero) at m = do
  owner ← m.requests at
  buffers ← delete owner.iov_base m.buffers
  some (record m { buffers = buffers })
free_iovs (suc (suc n)) at m = none

-- The destructor.
unfoldable pub destroy : ℕ → Memory → Option Memory
unfolding free_iovs set_request
destroy at m = do
  r ← m.requests at
  m' ← free_iovs r.msg_iovlen r.msg_iov m
  some (record m' { requests = set_request at none m'.requests })

-- `cookie->content = Request(iov_len)`: the temporary object at `temp` is made, copied into the
-- content at `content`, and destroyed.
unfoldable pub assign_request : ℕ → ℕ → ℕ → ℕ → Memory → Option Memory
unfolding make_request copy_request destroy
assign_request temp content base iov_len m = do
  m' ← copy_request temp content (make_request temp base iov_len m)
  destroy temp m'
