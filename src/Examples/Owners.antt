-- ===== src/Examples/Owners.antt =====
-- The owners in the dispatch loop, with allocators that count.
use hnet.Prelude.{is, ℕ, zero, suc, ◌+◌, ◌≤◌, ◌≡◌, refl, List, [], ◌∷◌, some, false, arith}
use hnet.Prelude.Results.{ok, After}
use hnet.Five.ObjectPool.{get}
use hnet.Netring.Uring.{put_cookie, recv_cookie, send_cookie}
use hnet.Netring.Uring.Cookies.{poll_cookie_now}
use hnet.Netring.Request.{make_request}
use hnet.Netring.Executor.{
  monostate, request, handler, World, addr_of, store, start_loop, dispatch_loop, loop_step,
}
use hnet.Netring.Executor.Start.{started}
use hnet.Netring.Executor.Replies.{waiting_handler}
use hnet.Netring.Executor.Owners.{Log, Allocators}
use hnet.Netring.Executor.Owners.Weights.{weigh}
use hnet.Netring.Executor.Owners.Begins.{
  buffer_owners, stack_owners, IsFresh, started-IsOwned, dispatch_loop-owners,
}
use hnet.Netring.Executor.Owners.Answers.{loop_step_answers}
use hnet.Examples.Starts.{
  three_each, three_bytes, blank, length-blank, next_number, ring_with, came,
}

abbrev below : ℕ → List ℕ
below zero = []
below (suc n) = n ∷ below n

abbrev counted : Log next_number
counted = record { made = below; grows = λ s. refl }

never_below : (a n : ℕ) → n ≤ a → weigh (is a) (below n) ≡ 0
never_below a zero h = refl
never_below a (suc n) h = ground (arith, never_below a n (omega arith))

pub not_made : (s : ℕ) → weigh (is (next_number s).0) (counted.made s) ≡ 0
not_made s = never_below s s (omega arith)

abbrev pub allocators : Allocators
allocators = record {
  alloc_stack = next_number;
  new_object = next_number;
  malloc = next_number;
  stack_log = counted;
  object_log = counted;
  buffer_log = counted;
  unused = not_made;
}

abbrev pub empty_world : World three_each
empty_world = record {
  ring = ring_with [];
  holders = λ a. monostate;
  buffers = λ b. blank;
  stacks = record { objects = []; factory = next_number; state = 0 };
  holder_pool = record { objects = []; factory = next_number; state = 0 };
  requests = record { objects = []; factory = λ n. (make_request n 500, suc n); state = 0 };
  freed = [];
}

abbrev pub fresh_world : IsFresh allocators empty_world
fresh_world = record {
  no_stacks = refl;
  no_objects = refl;
  no_buffers = refl;
  nothing_held = λ a. refl;
  nothing_freed = refl;
}

pub posts : recv_cookie three_each 3 500 0 false (ring_with []) ≡ some (ring_with (came 0 ∷ []))
unfolding recv_cookie put_cookie
posts = refl

dispatch_loop-owners_example :
    (w1 : World three_each) × (start_loop three_each 3 next_number next_number next_number 1
        empty_world
      ≡ ok w1)
    × After
        (λ w'.
          (b : ℕ)
          → (buffer_owners allocators b w' ≡ weigh (is b) (below w'.requests.state))
            × (stack_owners allocators b w' ≡ weigh (is b) (below w'.stacks.state)))
        (dispatch_loop three_each 3 (three_bytes ∷ three_bytes ∷ three_bytes ∷ []) w1)
dispatch_loop-owners_example =
    dispatch_loop-owners allocators 3 0 (three_bytes ∷ three_bytes ∷ three_bytes ∷ []) empty_world
      (ring_with (came 0 ∷ [])) fresh_world posts

abbrev first_world : World three_each
first_world = started 3 next_number next_number next_number empty_world (ring_with (came 0 ∷ []))

sends :
    send_cookie three_each 3
      (7 ∷ 8 ∷ 9 ∷ 7 ∷ 8 ∷ 9 ∷ [])
      (addr_of three_bytes.from)
      1
      (ring_with (came 0 ∷ []))
    ≡ some (ring_with (came 1 ∷ came 0 ∷ []))
unfolding send_cookie put_cookie
sends = refl

seen_once : (b : ℕ) → weigh (is b) (below 3) ≤ 0 + 1
seen_once b = ground arith

loop_step_answers_example :
    (w' : World three_each) × (loop_step three_each 3 three_bytes first_world ≡ ok w')
    × (w'.ring ≡ ring_with (came 1 ∷ came 0 ∷ []))
    × (w'.holders 0 ≡ request (make_request 1 500))
    × (w'.holders 1
        ≡ handler
            (waiting_handler 1 0 (came 0) (make_request 0 500) (make_request 2 500) three_bytes))
    × (w'.requests ≡ record { objects = []; factory = λ n. (make_request n 500, suc n); state = 3 })
unfolding get make_request store
loop_step_answers_example =
    loop_step_answers 3 allocators three_bytes first_world
      (started-IsOwned allocators 3 empty_world (ring_with (came 0 ∷ [])) fresh_world) seen_once
      (came 0) (ring_with []) (ring_with (came 0 ∷ [])) (ring_with (came 1 ∷ came 0 ∷ []))
      (make_request 0 500) 0 2 (poll_cookie_now three_each (ring_with (came 0 ∷ [])) refl) refl refl
      refl (omega arith) (omega (arith, length-blank)) refl (omega (arith, length-blank)) posts
      sends
