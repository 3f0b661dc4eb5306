-- ===== src/Netring/Uring/Callbacks/Delivery.antt =====
-- A completion runs the callback of its own request.
use hnet.Prelude.{
  ℕ, ◌≡◌, ◌≢◌, refl, sym, subst, ap, ◌∙◌, List, [], ◌∷◌, ◌++◌, Option, none, some, List-cases,
  Option-cases, inl, inr, arith,
}
use hnet.Prelude.Int.{ℤ, pos}
use hnet.Prelude.Results.{Result, ok, err, Result-cases}
use hnet.Ring2.Kernel.{UsefulCqe, Op, IoUring}
use hnet.Netring.Uring.{put_cookie}
use hnet.Netring.Uring.Callbacks.{CallbackFault, Contexts, assign, request_cb, poll_cb}

abbrev pub Absent : ℕ → List ℕ → Type 0
Absent a [] = Unit {0}
Absent a (b ∷ bs) = (b ≢ a) × Absent a bs

assign_self : {K : Type 0} (cb : ℕ → Option K) (a : ℕ) (k : Option K) → assign cb a k a ≡ k
assign_self cb a k = ground arith

assign_ne :
    {K : Type 0} (cb : ℕ → Option K) (a b : ℕ) (k : Option K) → a ≢ b → assign cb a k b ≡ cb b
assign_ne cb a b k apart = ground arith

module _ {u : IoUring} {K : Type 0} where
  -- More requests, one after the other.
  abbrev pub request_all : List (Op × K) → Contexts u K → Result CallbackFault (Contexts u K)
  request_all [] w = ok w
  request_all ((o, f) ∷ rs) w = elim (request_cb o f w) [
    | err x ↦ err x
    | ok w' ↦ request_all rs w'
  ]

  -- What a request leaves behind: its context is loaded and out of the pool.
  request_cb-effect :
      (o : Op) (f : K) (w w' : Contexts u K) (ctx : ℕ) (rest : List ℕ)
      → w.contexts_pool ≡ ctx ∷ rest
      → request_cb o f w ≡ ok w'
      → (w'.contexts_pool ≡ rest) × (w'.cb ≡ assign w.cb ctx (some f))
  unfolding request_cb
  request_cb-effect o f w w' ctx rest pool e = elim (Option-cases (put_cookie u o ctx w.ring)) [
    | inl full ↦ absurd (ground (arith, pool, full))
    | inr (q, put) ↦ (ground (arith, pool, put), ground (arith, pool, put))
  ]

  request_cb-empty :
      (o : Op) (f : K) (w w' : Contexts u K) → w.contexts_pool ≡ [] → request_cb o f w ≡ ok w' → ⊥
  unfolding request_cb
  request_cb-empty o f w w' empty e = ground (arith, empty)

  -- A context that is not in the pool keeps its callback.
  request_all-keeps :
      (rs : List (Op × K)) (a : ℕ) (w w' : Contexts u K)
      → Absent a w.contexts_pool
      → request_all rs w ≡ ok w'
      → w'.cb a ≡ w.cb a
  request_all-keeps [] a w w' absent e = ground arith
  request_all-keeps ((o, f) ∷ rs) a w w' absent e = elim (Result-cases (request_cb o f w)) [
    | inr (x, failed) ↦ absurd (ground (arith, failed))
    | inl (w1, done) ↦ elim (List-cases w.contexts_pool) [
      | inl empty ↦ absurd (request_cb-empty o f w w1 empty done)
      | inr (ctx, rest, pool) ↦
          let (apart, others) : Absent a (ctx ∷ rest) = subst (Absent a) pool absent in
          let (left, loaded) = request_cb-effect o f w w1 ctx rest pool done in
          request_all-keeps rs a w1 w' (subst (Absent a) (sym left) others) (ground (arith, done))
          ∙ ap (λ cb. cb a) loaded
          ∙ assign_ne w.cb ctx a (some f) apart
    ]
  ]

  -- A request takes the first context of the pool. Whatever requests follow, when the completion with
  -- that context is waited for, the callback that runs is the one of this request, and once it has
  -- returned, the context is empty and at the end of the pool.
  pub poll_cb-request_cb :
      (run : K → UsefulCqe → Contexts u K → Result CallbackFault (Contexts u K)) (o : Op) (f : K)
      (rs : List (Op × K)) (ctx : ℕ) (rest : List ℕ) (w w1 w2 w3 : Contexts u K) (res : ℤ) (q : u.Q)
      → w.contexts_pool ≡ ctx ∷ rest
      → Absent ctx rest
      → request_cb o f w ≡ ok w1
      → request_all rs w1 ≡ ok w2
      → u.wait_cqe w2.ring ≡ (pos 0, record { user_data = ctx; res = res }, q)
      → run f (record { user_data = ctx; res = res }) (record w2 { ring = q }) ≡ ok w3
      → (w4 : Contexts u K) × (poll_cb run w2 ≡ ok w4)
        × (w4.contexts_pool ≡ w3.contexts_pool ++ ctx ∷ [])
        × (w4.cb ctx ≡ none)
  unfolding poll_cb
  poll_cb-request_cb run o f rs ctx rest w w1 w2 w3 res q pool absent requested more waited ran =
      let (left, loaded) = request_cb-effect o f w w1 ctx rest pool requested in
      let there : w2.cb ctx ≡ some f =
        request_all-keeps rs ctx w1 w2 (subst (Absent ctx) (sym left) absent) more
        ∙ ap (λ cb. cb ctx) loaded
        ∙ assign_self w.cb ctx (some f) in
      (
        record {
          ring = u.cqe_seen w3.ring;
          contexts_pool = w3.contexts_pool ++ ctx ∷ [];
          cb = assign w3.cb ctx none;
        },
        rw (waited, there, ran) refl,
        refl,
        assign_self w3.cb ctx none,
      )
