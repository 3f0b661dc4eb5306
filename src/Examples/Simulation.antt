-- ===== src/Examples/Simulation.antt =====
-- A kernel that completes every entry with the result 0 when it is told of it, in order, and the
-- setters of two fibers.
use hnet.Prelude.{
  ℕ, suc, ◌+◌, ◌<◌, ◌≡◌, refl, ap, sym, ◌∙◌, false, List, [], ◌∷◌, ◌++◌, none, length, take, drop,
  length-append, length-take, length-drop, append-nil, ltb, arith,
}
use hnet.Prelude.Int.{ℤ, pos, neg_ℕ}
use hnet.Ring2.Errors.{eagain, eintr}
use hnet.Ring2.Kernel.{UsefulCqe, Sqe, IoUring, IsAccounted, IsFifo}
use hnet.Ring2.Ring.{Ring}
use hnet.Ring2.Ring.Accounting.{IsBalanced}
use hnet.Ring2.Poller.Setters.{Store, update}
use hnet.Ring2.Submitter.Untimed.{waiting}
use hnet.Ring2.Messages.{recv_sqe}

pub record Sim : Type 0 where
  pub depth : ℕ
  pub waiting : List Sqe
  pub cq : List UsefulCqe

abbrev pub complete : Sqe → UsefulCqe
complete e = record { user_data = e.user_data; res = pos 0 }

abbrev pub blank : UsefulCqe
blank = record { user_data = 0; res = pos 0 }

abbrev pub completions : List Sqe → List UsefulCqe
completions [] = []
completions (e ∷ es) = complete e ∷ completions es

abbrev pub peek_at : ℤ → Sim → ℤ × UsefulCqe × Sim
peek_at code q = elim q.cq [ [] ↦ (code, blank, q) | c ∷ cs ↦ (pos 0, c, q) ]

abbrev pub sim : IoUring
sim = record {
  Q = Sim;
  get_sqe = λ q. (ltb (length q.waiting) q.depth, q);
  put_sqe = λ e q. record q { waiting = q.waiting ++ e ∷ [] };
  submit =
      λ q. (pos (length q.waiting), record q { waiting = []; cq = q.cq ++ completions q.waiting });
  peek_cqe = peek_at eagain;
  wait_cqe = peek_at eintr;
  cqe_seen = λ q. record q { cq = drop 1 q.cq };
  peek_batch_cqe = λ n q. (take n q.cq, q);
  cq_advance = λ n q. record q { cq = drop n q.cq };
}

abbrev pub load : Sim → ℕ
load q = length q.waiting + length q.cq

length-completions : (es : List Sqe) → length (completions es) ≡ length es
length-completions [] = refl
length-completions (e ∷ es) = ap suc (length-completions es)

pub sim_submit : (q : Sim) → load (sim.submit q).1 ≡ load q
sim_submit q =
    omega (arith, length-append q.cq (completions q.waiting), length-completions q.waiting)

pub sim_peek : (code : ℤ) (q : Sim) → load (peek_at code q).2 ≡ load q
sim_peek code q = ground arith

pub sim_peeked :
    (n : ℕ) (q : Sim)
    → (peek_at (neg_ℕ (suc n)) q).0 ≡ pos 0
    → 0 < length (peek_at (neg_ℕ (suc n)) q).2.cq
sim_peeked n q e = ground arith

abbrev pub sim_accounted : IsAccounted sim
sim_accounted = record {
  outstanding = load;
  completed = λ q. length q.cq;
  within = λ q. omega arith;
  at_get_sqe = λ q. refl;
  at_put_sqe = λ e q. omega (arith, length-append q.waiting (e ∷ []));
  at_submit = sim_submit;
  at_peek_cqe = sim_peek eagain;
  peeked = sim_peeked 10;
  at_wait_cqe = sim_peek eintr;
  waited = sim_peeked 3;
  at_cqe_seen = λ q h. omega (arith, length-drop 1 q.cq);
  at_peek_batch = λ n q. refl;
  batch_limit = λ n q. omega (arith, length-take n q.cq);
  batched = λ n q. omega (arith, length-take n q.cq);
  at_cq_advance = λ n q h. omega (arith, length-drop n q.cq);
}

pub sim_head :
    (code : ℤ) (q : Sim) {c : UsefulCqe} {cs : List UsefulCqe}
    → q.cq ≡ c ∷ cs
    → ((peek_at code q).0 ≡ pos 0) × ((peek_at code q).1 ≡ c) × ((peek_at code q).2.cq ≡ q.cq ++ [])
sim_head code q e = ground (arith, append-nil q.cq)

-- Nothing arrives while a call runs.
abbrev pub sim_fifo : IsFifo sim
sim_fifo = record {
  ready = λ q. q.cq;
  arrived = λ q. [];
  peek_head = λ q e. sim_head eagain q e;
  wait_head = λ q e. sim_head eintr q e;
  seen_tail = λ q {c} {cs} e. ap (drop 1) e ∙ sym (append-nil cs);
}

-- A ring on a queue of two slots.
abbrev pub ring_of : List UsefulCqe → Ring sim
ring_of cs = record {
  ring = record { depth = 2; waiting = []; cq = cs };
  pending_count = length cs;
  cycles = 0;
  times = 0;
}

abbrev pub cqe_at : ℕ → UsefulCqe
cqe_at a = record { user_data = a; res = pos 0 }

-- The other fibers do nothing, or tell the kernel of what waits in the queue.
abbrev pub stay : Ring sim → Ring sim
stay r = r

abbrev pub flush : Ring sim → Ring sim
flush r = record r { ring = (sim.submit r.ring).1 }

pub flush-IsBalanced :
    (r : Ring sim) → IsBalanced sim_accounted r → IsBalanced sim_accounted (flush r)
flush-IsBalanced r b = omega (arith, sim_submit r.ring)

-- Both slots are taken.
abbrev pub full_ring : Ring sim
full_ring = record {
  ring = record { depth = 2; waiting = recv_sqe 3 10 false ∷ recv_sqe 4 10 false ∷ []; cq = [] };
  pending_count = 2;
  cycles = 0;
  times = 0;
}

-- Fiber 7 waits with its setter at 1, and fiber 8 with its setter at 2.
abbrev pub sleepers : Store
sleepers = update (update (λ a. none) 1 (waiting 7)) 2 (waiting 8)
