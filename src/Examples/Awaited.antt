-- ===== src/Examples/Awaited.antt =====
-- What the kernel has while the dispatch loop runs.
use hnet.Prelude.{is, ℕ, suc, ◌+◌, ◌≡◌, ◌≢◌, refl, List, [], ◌∷◌, ◌++◌, map, arith}
use hnet.Prelude.Int.{ℤ, pos, neg_ℕ}
use hnet.Prelude.Results.{Result, ok, err, After}
use hnet.Ring2.Kernel.{UsefulCqe, Sqe}
use hnet.Ring2.Errors.{eagain, eintr}
use hnet.Netring.Uring.Tracked.{IsTracked}
use hnet.Netring.Executor.{unreachable, no_reply, World, start_loop, dispatch_loop}
use hnet.Netring.Executor.Owners.Completions.{waits_for}
use hnet.Netring.Executor.Owners.Panics.{dispatch_loop-awaited}
use hnet.Programs.Settings.{old_server_defaults}
use hnet.Programs.Srv.{SrvStopped, fault, run_srv}
use hnet.Programs.Srv.Safety.{run_srv-safe}
use hnet.Examples.Tables.{table_os, full_of_three}
use hnet.Examples.Simulation.{Sim, completions, peek_at}
use hnet.Examples.Starts.{three_each, three_bytes, ring_with, came, next_number}
use hnet.Examples.Owners.{allocators, empty_world, fresh_world, posts}

abbrev in_sqes : ℕ → List Sqe → ℕ
in_sqes b [] = 0
in_sqes b (e ∷ es) = is b e.user_data + in_sqes b es

abbrev in_cqes : ℕ → List UsefulCqe → ℕ
in_cqes b [] = 0
in_cqes b (c ∷ cs) = is b c.user_data + in_cqes b cs

abbrev open_in : Sim → ℕ → ℕ
open_in q b = in_sqes b q.waiting + in_cqes b q.cq

in_sqes-append :
    (b : ℕ) (es : List Sqe) (e : Sqe) → in_sqes b (es ++ e ∷ []) ≡ in_sqes b es + is b e.user_data
in_sqes-append b [] e = omega arith
in_sqes-append b (d ∷ es) e = omega (arith, in_sqes-append b es e)

in_cqes-completions :
    (b : ℕ) (es : List Sqe) (cs : List UsefulCqe)
    → in_cqes b (map (λ (c : UsefulCqe). record c { res = pos 3 }) (completions es) ++ cs)
      ≡ in_sqes b es + in_cqes b cs
in_cqes-completions b [] cs = omega arith
in_cqes-completions b (e ∷ es) cs = omega (arith, in_cqes-completions b es cs)

open_in-peek : (code : ℤ) (q : Sim) (b : ℕ) → open_in (peek_at code q).2 b ≡ open_in q b
open_in-peek code q b = ground arith

open_in-seen :
    (n : ℕ) (q : Sim) (b : ℕ)
    → (peek_at (neg_ℕ (suc n)) q).0 ≡ pos 0
    → open_in (three_each.cqe_seen (peek_at (neg_ℕ (suc n)) q).2) b
        + is b (peek_at (neg_ℕ (suc n)) q).1.user_data
      ≡ open_in (peek_at (neg_ℕ (suc n)) q).2 b
open_in-seen n q b e = ground (arith, e)

abbrev tracked : IsTracked three_each
tracked = record {
  open_for = open_in;
  at_get_sqe = λ q b. refl;
  at_put_sqe = λ e q b. omega (arith, in_sqes-append b q.waiting e);
  at_submit = λ q b. omega (arith, in_cqes-completions b q.waiting q.cq);
  at_peek_cqe = open_in-peek eagain;
  seen_peeked = open_in-seen 10;
  at_wait_cqe = open_in-peek eintr;
  seen_waited = open_in-seen 3;
}

dispatch_loop-awaited_example :
    (w1 : World three_each) × (start_loop three_each 3 allocators.alloc_stack allocators.new_object
        allocators.malloc 1 empty_world
      ≡ ok w1)
    × (dispatch_loop three_each 3 (three_bytes ∷ three_bytes ∷ three_bytes ∷ []) w1
        ≢ err unreachable)
    × (dispatch_loop three_each 3 (three_bytes ∷ three_bytes ∷ three_bytes ∷ []) w1 ≢ err no_reply)
    × After
        (λ w'. (b : ℕ) → open_in w'.ring b ≡ waits_for (w'.holders b))
        (dispatch_loop three_each 3 (three_bytes ∷ three_bytes ∷ three_bytes ∷ []) w1)
dispatch_loop-awaited_example =
    dispatch_loop-awaited tracked allocators 3 0 (three_bytes ∷ three_bytes ∷ three_bytes ∷ [])
      empty_world (ring_with (came 0 ∷ [])) fresh_world (λ b. refl) posts

-- The server with two datagrams.
abbrev stopped : Result SrvStopped (World three_each)
stopped =
    (run_srv table_os three_each next_number next_number next_number 1 old_server_defaults
      (three_bytes ∷ three_bytes ∷ []) empty_world full_of_three).0

run_srv-safe_example : (stopped ≢ err (fault unreachable)) × (stopped ≢ err (fault no_reply))
run_srv-safe_example =
    run_srv-safe table_os tracked allocators 0 (three_bytes ∷ three_bytes ∷ []) empty_world
      fresh_world (λ b. refl) old_server_defaults full_of_three
