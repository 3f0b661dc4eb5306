-- ===== src/Netring/Uring/Callbacks/Balance.antt =====
-- No context is lost: each is in the pool or with a request that is outstanding.
use hnet.Prelude.{
  List-cases, ℕ, ◌+◌, ◌<◌, ◌≡◌, ◌↔◌, refl, ap, ◌∙◌, List, [], ◌∷◌, some, length, length-append,
  Option-cases, inl, inr, arith,
}
use hnet.Prelude.Int.{pos, ==ℤ→eq}
use hnet.Prelude.Results.{Result, ok, err, Result-cases}
use hnet.Ring2.Kernel.{UsefulCqe, Op, IoUring, IsAccounted}
use hnet.Netring.Uring.{cookie_sqe, put_cookie}
use hnet.Netring.Uring.Callbacks.{
  CallbackFault, no_context, Contexts, make_uring, request_cb, poll_cb,
}

module _ {u : IoUring} (k : IsAccounted u) where
  put_cookie-outstanding :
      (o : Op) (cookie : ℕ) (q q' : u.Q)
      → put_cookie u o cookie q ≡ some q'
      → k.outstanding q' ≡ k.outstanding q + 1
  unfolding put_cookie
  put_cookie-outstanding o cookie q q' e =
      ground (arith, k.at_get_sqe q, k.at_put_sqe (cookie_sqe o cookie) (u.get_sqe q).1)

module _ {u : IoUring} {K : Type 0} (k : IsAccounted u) where
  abbrev pub held : Contexts u K → ℕ
  held w = length w.contexts_pool + k.outstanding w.ring

  pub request_cb-held :
      (o : Op) (f : K) (w w' : Contexts u K) → request_cb o f w ≡ ok w' → held w' ≡ held w
  unfolding request_cb
  request_cb-held o f w w' e = elim (List-cases w.contexts_pool) [
    | inl empty ↦ absurd (ground (arith, empty))
    | inr (ctx, rest, pool) ↦ elim (Option-cases (put_cookie u o ctx w.ring)) [
      | inl full ↦ absurd (ground (arith, pool, full))
      | inr (q, put) ↦
          ground (arith, pool, put, put_cookie-outstanding k o ctx w.ring q put, k.at_submit q)
    ]
  ]

  -- Functions that start requests and leave the completions alone.
  pub record IsPolite (run : K → UsefulCqe → Contexts u K → Result CallbackFault (Contexts u K))
      : Type 0 where
    pub run-held :
        (f : K) (c : UsefulCqe) (w w' : Contexts u K) → run f c w ≡ ok w' → held w' ≡ held w
    pub run-completed :
        (f : K) (c : UsefulCqe) (w w' : Contexts u K)
        → run f c w ≡ ok w'
        → 0 < k.completed w.ring
        → 0 < k.completed w'.ring

  poll_cb-held :
      (run : K → UsefulCqe → Contexts u K → Result CallbackFault (Contexts u K))
      → IsPolite run
      → (w w' : Contexts u K) → poll_cb run w ≡ ok w'
      → held w' ≡ held w
  unfolding poll_cb
  poll_cb-held run polite w w' e =
      let c = (u.wait_cqe w.ring).1 in
      let waited : Contexts u K = record w { ring = (u.wait_cqe w.ring).2 } in
      elim (Option-cases (w.cb c.user_data)) [
        | inl empty ↦ absurd (ground (arith, empty))
        | inr (f, full) ↦ elim (Result-cases (run f c waited)) [
          | inr (x, threw) ↦ absurd (ground (arith, full, threw))
          | inl (w1, ran) ↦ ground (
            arith,
            full,
            ran,
            ==ℤ→eq (u.wait_cqe w.ring).0 (pos 0),
            k.at_wait_cqe w.ring,
            k.waited w.ring,
            polite.run-held f c waited w1 ran,
            polite.run-completed f c waited w1 ran,
            k.at_cqe_seen w1.ring,
            length-append w1.contexts_pool (c.user_data ∷ []),
          )
        ]
      ]

  -- Calls of a `Uring` in any order.
  pub data Calls (run : K → UsefulCqe → Contexts u K → Result CallbackFault (Contexts u K))
      (w : Contexts u K) : Contexts u K → Type 0 where
    created : Calls run w w
    requests :
        {w1 w2 : Contexts u K} (o : Op) (f : K)
        → Calls run w w1
        → request_cb o f w1 ≡ ok w2
        → Calls run w w2
    polls : {w1 w2 : Contexts u K} → Calls run w w1 → poll_cb run w1 ≡ ok w2 → Calls run w w2

  Calls-held :
      (run : K → UsefulCqe → Contexts u K → Result CallbackFault (Contexts u K))
      → IsPolite run
      → {w w' : Contexts u K} → Calls run w w'
      → held w' ≡ held w
  Calls-held run polite created = refl
  Calls-held run polite (requests {w1} {w2} o f before e) =
      request_cb-held o f w1 w2 e ∙ Calls-held run polite before
  Calls-held run polite (polls {w1} {w2} before e) =
      poll_cb-held run polite w1 w2 e ∙ Calls-held run polite before

  -- A `Uring` whose contexts are all in its pool, after any calls that return: each context is in the
  -- pool or stands for one outstanding request, so a request fails for the lack of one exactly when as
  -- many are outstanding as there are contexts.
  pub Calls-no_context :
      (run : K → UsefulCqe → Contexts u K → Result CallbackFault (Contexts u K)) (q : u.Q)
      (made : List ℕ) (o : Op) (f : K) (w : Contexts u K)
      → IsPolite run
      → k.outstanding q ≡ 0
      → Calls run (make_uring q made) w
      → (length w.contexts_pool + k.outstanding w.ring ≡ length made)
        × ((request_cb o f w ≡ err no_context) ↔ (k.outstanding w.ring ≡ length made))
  unfolding make_uring request_cb
  Calls-no_context run q made o f w polite idle calls =
      let all : held w ≡ length made = omega (arith, Calls-held run polite calls, idle) in
      elim (List-cases w.contexts_pool) [
        | inl empty ↦ (all, ((λ h. omega (arith, all, ap length empty)), λ h. rw (empty) refl))
        | inr (ctx, rest, pool) ↦ (
          all,
          (
            (λ h. elim (Option-cases (put_cookie u o ctx w.ring)) [
              | inl full ↦ absurd (ground (arith, pool, full))
              | inr (q', put) ↦ absurd (ground (arith, pool, put))
            ]),
            λ h. absurd (omega (arith, all, ap length pool)),
          ),
        )
      ]
