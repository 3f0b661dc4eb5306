-- ===== src/Examples/Callbacks.antt =====
-- Callbacks of netring on the simulated kernel, and the text of its addresses.
use hnet.Prelude.{
  ℕ, ◌+◌, ◌<◌, ◌≡◌, ◌↔◌, refl, [], ◌∷◌, ◌++◌, none, some, length, length-append, List-cases,
  Option-cases, ap, inl, inr, arith,
}
use hnet.Prelude.Int.{pos}
use hnet.Prelude.Results.{Result, ok, err}
use hnet.Ring2.Kernel.{UsefulCqe, recvmsg}
use hnet.Ring2.Addr.{Inet}
use hnet.Netring.Uring.{put_cookie}
use hnet.Netring.Uring.Callbacks.{
  CallbackFault, no_context, Contexts, assign, make_uring, request_cb, poll_cb,
}
use hnet.Netring.Uring.Callbacks.Balance.{
  IsPolite, Calls, created, requests, request_cb-held, Calls-no_context,
}
use hnet.Netring.Uring.Callbacks.Delivery.{request_all, poll_cb-request_cb}
use hnet.Examples.Simulation.{Sim, sim, sim_accounted, completions}

-- Every callback starts the next receive, with itself as the callback.
abbrev again : ℕ → UsefulCqe → Contexts sim ℕ → Result CallbackFault (Contexts sim ℕ)
again f c w = request_cb (recvmsg 4 8) f w

put_cookie-cq : (a : ℕ) (q q' : Sim) → put_cookie sim (recvmsg 4 8) a q ≡ some q' → q'.cq ≡ q.cq
unfolding put_cookie
put_cookie-cq a q q' e = ground arith

receives-completed :
    (f : ℕ) (c : UsefulCqe) (w w' : Contexts sim ℕ)
    → again f c w ≡ ok w'
    → 0 < length w.ring.cq
    → 0 < length w'.ring.cq
unfolding request_cb
receives-completed f c w w' e h = elim (List-cases w.contexts_pool) [
  | inl empty ↦ ground (arith, empty)
  | inr (ctx, rest, pool) ↦ elim (Option-cases (put_cookie sim (recvmsg 4 8) ctx w.ring)) [
    | inl full ↦ ground (arith, pool, full)
    | inr (q, put) ↦
        let after : (sim.submit q).1 ≡ w'.ring = ground (arith, pool, put) in
        omega (
          arith,
          ap (λ (r : Sim). length r.cq) after,
          ap length (put_cookie-cq ctx w.ring q put),
          length-append q.cq (completions q.waiting),
        )
  ]
]

again-IsPolite : IsPolite sim_accounted again
again-IsPolite = record {
  run-held = λ f c w w' e. request_cb-held sim_accounted (recvmsg 4 8) f w w' e;
  run-completed = receives-completed;
}

abbrev idle : Sim
idle = record { depth = 8; waiting = []; cq = [] }

-- Two contexts, at 100 and 101.
abbrev fresh : Contexts sim ℕ
fresh = record { ring = idle; contexts_pool = 100 ∷ 101 ∷ []; cb = λ a. none }

-- The first receive, with the callback 7, and the second, with 8.
abbrev first : Contexts sim ℕ
first = record {
  ring = record idle { cq = record { user_data = 100; res = pos 0 } ∷ [] };
  contexts_pool = 101 ∷ [];
  cb = assign (λ a. none) 100 (some 7);
}

abbrev second : Contexts sim ℕ
second = record {
  ring = record idle {
    cq = record { user_data = 100; res = pos 0 } ∷ record { user_data = 101; res = pos 0 } ∷ [];
  };
  contexts_pool = [];
  cb = assign first.cb 101 (some 8);
}

starts_first : request_cb (recvmsg 4 8) 7 fresh ≡ ok first
unfolding request_cb
starts_first = refl

starts_second : request_cb (recvmsg 4 8) 8 first ≡ ok second
unfolding request_cb
starts_second = refl

both : Calls sim_accounted again (make_uring idle (100 ∷ 101 ∷ [])) second
unfolding make_uring
both = requests (recvmsg 4 8) 8 (requests (recvmsg 4 8) 7 created starts_first) starts_second

receives_second : request_all ((recvmsg 4 8, 8) ∷ []) first ≡ ok second
unfolding request_cb
receives_second = refl

Calls-no_context_example :
    (length second.contexts_pool + sim_accounted.outstanding second.ring ≡ 2)
    × ((request_cb (recvmsg 4 8) 9 second ≡ err no_context)
        ↔ (sim_accounted.outstanding second.ring ≡ 2))
Calls-no_context_example =
    Calls-no_context sim_accounted again idle (100 ∷ 101 ∷ []) (recvmsg 4 8) 9 second again-IsPolite
      refl both

-- A callback that does nothing.
abbrev quiet : ℕ → UsefulCqe → Contexts sim ℕ → Result CallbackFault (Contexts sim ℕ)
quiet f c w = ok w

poll_cb-request_cb_example :
    (w : Contexts sim ℕ) × (poll_cb quiet second ≡ ok w)
    × (w.contexts_pool ≡ [] ++ 100 ∷ [])
    × (w.cb 100 ≡ none)
poll_cb-request_cb_example =
    poll_cb-request_cb quiet (recvmsg 4 8) 7 ((recvmsg 4 8, 8) ∷ []) 100 (101 ∷ []) fresh first
      second second (pos 0) second.ring refl ((λ e. omega (arith, e)), tt) starts_first
      receives_second refl refl

-- The C library's conversions, of which the test needs none.
abbrev inet : Inet
inet = record {
  pton4 = λ text. none;
  pton6 = λ text. none;
  ntop4 = λ bytes. none;
  ntop6 = λ bytes. some bytes;
  decimal = λ n. n ∷ [];
}
