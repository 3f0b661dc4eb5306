-- ===== src/Ring2/Kernel.antt =====
-- The kernel's side of io_uring, as ring2/ring2 calls it through liburing. liburing is not part of
-- the repository: `IoUring` has its calls, and `IsAccounted` and `IsFifo` what its manual says.
use hnet.Prelude.{ℕ, ◌+◌, ◌≤◌, ◌<◌, ◌≡◌, Bool, List, ◌∷◌, ◌++◌, length}
use hnet.Prelude.Int.{ℤ, pos}
use hnet.Five.Time.{Timespec}
use hnet.Ring2.Addr.{Addr}

-- `UsefulCqe`: a completion's user data, an address, and its result.
pub record UsefulCqe : Type 0 where
  pub user_data : ℕ
  pub res : ℤ

-- A request, with what the message header of a send points to.
pub data Op : Type 0 where
  recvmsg : (fd iov_len : ℕ) → Op
  sendmsg : (fd : ℕ) → List ℕ → Addr → Op
  accept : (fd : ℕ) → Op
  link_timeout : Timespec → Op

-- The parts of `struct io_uring_sqe` that the source sets.
pub record Sqe : Type 0 where
  pub op : Op
  pub user_data : ℕ
  pub io_link : Bool
  pub async : Bool
  pub poll_first : Bool

-- The state of a `struct io_uring`, and the calls on it. `get_sqe` says whether a slot was free,
-- and `put_sqe` fills the slot that it gave. A waited or peeked entry counts only beside the code 0.
pub record IoUring : Type 1 where
  pub Q : Type 0
  pub get_sqe : Q → Bool × Q
  pub put_sqe : Sqe → Q → Q
  pub submit : Q → ℤ × Q
  pub peek_cqe : Q → ℤ × UsefulCqe × Q
  pub wait_cqe : Q → ℤ × UsefulCqe × Q
  pub cqe_seen : Q → Q
  pub peek_batch_cqe : ℕ → Q → List UsefulCqe × Q
  pub cq_advance : ℕ → Q → Q

-- Each entry that is put in has one completion, which is outstanding until it is consumed; the
-- `completed` ones among them are in the completion queue.
pub record IsAccounted (u : IoUring) : Type 0 where
  pub outstanding : u.Q → ℕ
  pub completed : u.Q → ℕ
  pub within : (q : u.Q) → completed q ≤ outstanding q
  pub at_get_sqe : (q : u.Q) → outstanding (u.get_sqe q).1 ≡ outstanding q
  pub at_put_sqe : (e : Sqe) (q : u.Q) → outstanding (u.put_sqe e q) ≡ outstanding q + 1
  pub at_submit : (q : u.Q) → outstanding (u.submit q).1 ≡ outstanding q
  pub at_peek_cqe : (q : u.Q) → outstanding (u.peek_cqe q).2 ≡ outstanding q
  pub peeked : (q : u.Q) → (u.peek_cqe q).0 ≡ pos 0 → 0 < completed (u.peek_cqe q).2
  pub at_wait_cqe : (q : u.Q) → outstanding (u.wait_cqe q).2 ≡ outstanding q
  pub waited : (q : u.Q) → (u.wait_cqe q).0 ≡ pos 0 → 0 < completed (u.wait_cqe q).2
  pub at_cqe_seen : (q : u.Q) → 0 < completed q → outstanding (u.cqe_seen q) + 1 ≡ outstanding q
  pub at_peek_batch : (n : ℕ) (q : u.Q) → outstanding (u.peek_batch_cqe n q).1 ≡ outstanding q
  pub batch_limit : (n : ℕ) (q : u.Q) → length (u.peek_batch_cqe n q).0 ≤ n
  pub batched :
      (n : ℕ) (q : u.Q) → length (u.peek_batch_cqe n q).0 ≤ completed (u.peek_batch_cqe n q).1
  pub at_cq_advance :
      (n : ℕ) (q : u.Q) → n ≤ completed q → outstanding (u.cq_advance n q) + n ≡ outstanding q

-- Completions are read in the order in which they arrive. `ready` is the completion queue, and
-- `arrived q` what the kernel adds to it while a call that is made at `q` runs.
pub record IsFifo (u : IoUring) : Type 0 where
  pub ready : u.Q → List UsefulCqe
  pub arrived : u.Q → List UsefulCqe
  pub peek_head :
      (q : u.Q) {c : UsefulCqe} {cs : List UsefulCqe}
      → ready q ≡ c ∷ cs
      → ((u.peek_cqe q).0 ≡ pos 0)
        × ((u.peek_cqe q).1 ≡ c)
        × (ready (u.peek_cqe q).2 ≡ ready q ++ arrived q)
  pub wait_head :
      (q : u.Q) {c : UsefulCqe} {cs : List UsefulCqe}
      → ready q ≡ c ∷ cs
      → ((u.wait_cqe q).0 ≡ pos 0)
        × ((u.wait_cqe q).1 ≡ c)
        × (ready (u.wait_cqe q).2 ≡ ready q ++ arrived q)
  pub seen_tail :
      (q : u.Q) {c : UsefulCqe} {cs : List UsefulCqe}
      → ready q ≡ c ∷ cs
      → ready (u.cqe_seen q) ≡ cs ++ arrived q
