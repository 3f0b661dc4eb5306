-- ===== src/Netring/Executor/Owners/Completions.antt =====
-- What a completion is for: every cookie that the kernel has points to what waits for it.
use hnet.Prelude.{
  is, ℕ, ◌+◌, ◌*◌, Option-cases, ◌≡◌, ◌≢◌, refl, sym, ap, ◌∙◌, List, [], ◌∷◌, ◌++◌, ◌==◌, true,
  false, Option, none, some, Bool-cases, inl, inr, arith,
}
use hnet.Prelude.Results.{ok, ◌>>=◌, Ends, Ends-bind, Ends-both, Result-cases}
use hnet.Five.ObjectPool.{get}
use hnet.Ring2.Kernel.{UsefulCqe, IoUring}
use hnet.Netring.Uring.{poll_cookie, recv_cookie}
use hnet.Netring.Uring.Tracked.{IsTracked, recv_cookie-open, send_cookie-open, poll_cookie-open}
use hnet.Netring.Request.{Request}
use hnet.Netring.Executor.{
  Handler, Holder, monostate, request, handler, World, Arrival, store, need, out_of_bounds,
  null_sqe, release, arrive, start_handler, resume_handler, retire, accept_request, dispatch_cookie,
  loop_step, dispatch_loop,
}
use hnet.Netring.Executor.Copies.{store_self, store_ne}
use hnet.Netring.Executor.Owners.{Allocators, assets, IsOwned, IsIdle, IsCoherent, is_none}
use hnet.Netring.Executor.Owners.Takes.{begun, apart, idle_of_new}
use hnet.Netring.Executor.Owners.Waits.{IsExpected, need-IsExpected, start_handler-waits}
use hnet.Netring.Executor.Owners.Rounds.{loop_step-IsOwned}

-- How many entries of the kernel a holder waits for: a request for its datagram, and a handler for
-- its send.
abbrev pub reply_waits : Option Request → ℕ
reply_waits none = 0
reply_waits (some r) = 1

abbrev pub waits_for : Holder → ℕ
waits_for monostate = 0
waits_for (request r) = 1
waits_for (handler h) = reply_waits h.reply

reply_waits-is_none : (r : Option Request) → is_none r ≡ true → reply_waits r ≡ 0
reply_waits-is_none none e = refl
reply_waits-is_none (some r) e = ground arith

waits_for-IsIdle : (x : Holder) → IsIdle x → IsCoherent x → waits_for x ≡ 0
waits_for-IsIdle monostate idle coherent = refl
waits_for-IsIdle (request r) idle coherent = elim idle [ ]
waits_for-IsIdle (handler h) idle coherent = reply_waits-is_none h.reply (sym coherent ∙ idle)

-- New content that waits for as much as the old, for one entry more, or for one less.
module _ (at : ℕ) (x : Holder) (holders : ℕ → Holder) (b : ℕ) where
  there :
      at ≡ b
      → (waits_for (store at x holders b) ≡ waits_for x)
        × (waits_for (holders at) ≡ waits_for (holders b))
  there here = (
    ap waits_for (ap (store at x holders) (sym here) ∙ store_self at x holders),
    ap (λ a. waits_for (holders a)) here,
  )

  elsewhere : b ≢ at → waits_for (store at x holders b) ≡ waits_for (holders b)
  elsewhere apart = ap waits_for (store_ne at b x holders apart)

  pub waits_for-store :
      (waits_for (store at x holders b) + is b at * waits_for (holders at)
        ≡ waits_for (holders b) + is b at * waits_for x)
  waits_for-store = elim (Bool-cases (at == b)) [
    | inl same ↦ (let here : at ≡ b = ground (arith, same) in ground (arith, same, there here))
    | inr other ↦
        (let apart : b ≢ at = λ e. ground (arith, other) in ground (arith, other, elsewhere apart))
  ]

-- The three changes that the loop makes for a datagram add one entry, for the send of the handler.
waits_for-taken :
    (new at : ℕ) (h : Handler) (fresh sent : Request) (holders : ℕ → Holder) (b : ℕ)
    → at ≢ new
    → h.reply ≡ none
    → waits_for (holders new) ≡ 0
    → waits_for (holders at) ≡ 1
    → waits_for (
        store new
          (handler (record h { reply = some sent }))
          (store at (request fresh) (store new (handler h) holders))
          b)
      ≡ waits_for (holders b) + is b new
waits_for-taken new at h fresh sent holders b apart silent idle asked =
    let inner = store new (handler h) holders in
    let posted = store at (request fresh) inner in
    let at_inner : waits_for (inner at) ≡ 1 =
      ap waits_for (store_ne new at (handler h) holders apart) ∙ asked in
    let new_posted : waits_for (posted new) ≡ 0 =
      ap waits_for (
        store_ne at new (request fresh) inner (λ e. apart (sym e))
        ∙ store_self new (handler h) holders)
      ∙ ap reply_waits silent in
    omega (
      arith,
      waits_for-store new (handler h) holders b,
      waits_for-store at (request fresh) inner b,
      waits_for-store new (handler (record h { reply = some sent })) posted b,
      ap (λ n. is b new * n) idle,
      ap (λ n. is b new * reply_waits n) silent,
      ap (λ n. is b at * n) at_inner,
      ap (λ n. is b new * n) new_posted,
    )

module _ {u : IoUring} (k : IsTracked u) (fd : ℕ) (al : Allocators) where
  -- The kernel has each cookie as often as its object waits.
  abbrev pub IsAwaited : World u → Type 0
  IsAwaited w = (b : ℕ) → k.open_for w.ring b ≡ waits_for (w.holders b)

  -- The ring after a poll has one entry less for the cookie that came.
  abbrev CameFor : ℕ → World u → Type 0
  CameFor at w = (b : ℕ) → k.open_for w.ring b + is b at ≡ waits_for (w.holders b)

  accept_request-IsAwaited :
      (at : ℕ) (cqe : UsefulCqe) (held taken : Request) (w : World u)
      → w.holders at ≡ request held
      → taken.iov_base ≡ held.iov_base
      → IsOwned al w
      → CameFor at w
      → Ends IsAwaited IsExpected (accept_request u fd at cqe taken w)
  unfolding accept_request retire
  accept_request-IsAwaited at cqe held taken w holds moved sound came =
      let new = (get w.holder_pool).0 in
      let h = begun al (assets w) sound at cqe held taken taken holds moved in
      let far = apart al (assets w) sound at cqe held taken taken holds moved in
      let idle = idle_of_new al (assets w) sound at cqe held taken taken holds moved in
      let inner = store new (handler h) w.holders in
      let posted = store at (request (get w.requests).0) inner in
      let before : u.Q → World u = λ ring. record w {
        ring = ring;
        holder_pool = (get w.holder_pool).1;
        stacks = (get w.stacks).1;
        requests = (get w.requests).1;
        freed = release (w.holders new) ++ w.freed;
        holders = posted;
      } in
      let out = recv_cookie u fd (get w.requests).0.iov_len at false w.ring in
      let P : World u → Type 0 = λ w'. IsAwaited (retire u fd new w') in
      Ends-bind (λ q. out ≡ some q) IsAwaited IsExpected (need null_sqe out) _
        (need-IsExpected null_sqe out tt)
        (λ ring posts.
          Ends-bind P IsAwaited IsExpected (start_handler u fd new h (before ring)) _
            (start_handler-waits fd P new h (before ring)
              (λ sent ring' to second bytes of_pool sends.
                rw (store_self new (handler (record h { reply = some sent })) posted, retire)
                  (λ b. omega (
                    arith,
                    came b,
                    recv_cookie-open k fd (get w.requests).0.iov_len at w.ring ring b posts,
                    send_cookie-open k fd bytes _ new ring ring' b sends,
                    waits_for-taken new at h (get w.requests).0 sent w.holders b far refl
                        (waits_for-IsIdle (w.holders new) idle (sound.coherent new))
                        (ap waits_for holds),
                  ))))
            (λ w' awaited. awaited))

  resume-IsAwaited :
      (at : ℕ) (cqe : UsefulCqe) (h : Handler) (w : World u)
      → w.holders at ≡ handler h
      → CameFor at w
      → Ends IsAwaited IsExpected
          (resume_handler u fd at (record h { last_cqe = cqe }) w >>= λ w'. ok (retire u fd at w'))
  unfolding resume_handler retire
  resume-IsAwaited at cqe h w holds came = elim (Option-cases h.reply) [
    | inl empty ↦ absurd (ground (arith, came at, ap waits_for holds, ap reply_waits empty))
    | inr (sent, waits) ↦
        let last : Handler = record h { last_cqe = cqe; reply = none; finished = true } in
        rw (waits, resume_handler)
          (rw (store_self at (handler last) w.holders, retire)
            (λ b. ground (
              arith,
              came b,
              came at,
              waits_for-store at (handler last) w.holders b,
              ap waits_for holds,
              ap reply_waits waits,
            )))
  ]

  dispatch-IsAwaited :
      (cqe : UsefulCqe) (a : Arrival) (w : World u) (x : Holder)
      → w.holders cqe.user_data ≡ x
      → IsOwned al w
      → CameFor cqe.user_data w
      → Ends IsAwaited IsExpected (dispatch_cookie u fd cqe a w)
  unfolding dispatch_cookie arrive
  dispatch-IsAwaited cqe a w monostate holds sound came =
      absurd (ground (arith, came cqe.user_data, ap waits_for holds))
  dispatch-IsAwaited cqe a w (request r) holds sound came =
      rw (holds, dispatch_cookie)
        (Ends-bind (λ b. r.iov_base ≡ some b) IsAwaited IsExpected (need out_of_bounds r.iov_base) _
          (need-IsExpected out_of_bounds r.iov_base tt)
          (λ base x.
            accept_request-IsAwaited cqe.user_data cqe r (record r { addr = a.from })
              (arrive u fd a base r w).0 holds refl sound came))
  dispatch-IsAwaited cqe a w (handler h) holds sound came =
      rw (holds, dispatch_cookie) (resume-IsAwaited cqe.user_data cqe h w holds came)

  -- A world in which everything is owned once, and every cookie awaited.
  abbrev pub IsServing : World u → Type 0
  IsServing w = IsOwned al w × IsAwaited w

  loop_step-IsServing :
      (a : Arrival) (w : World u) → IsServing w → Ends IsServing IsExpected (loop_step u fd a w)
  unfolding loop_step
  loop_step-IsServing a w (sound, awaited) =
      Ends-both (IsOwned al) IsAwaited IsExpected (loop_step u fd a w)
        (loop_step-IsOwned fd al a w sound)
        (elim (Result-cases (poll_cookie u w.ring)) [
          | inl ((cqe, q), polled) ↦
              rw (polled, loop_step)
                (dispatch-IsAwaited cqe a (record w { ring = q }) (w.holders cqe.user_data) refl
                  sound (λ b. poll_cookie-open k w.ring q cqe b polled ∙ awaited b))
          | inr (e, failed) ↦ rw (failed, loop_step) tt
        ])

  pub dispatch_loop-IsServing :
      (arrivals : List Arrival) (w : World u)
      → IsServing w
      → Ends IsServing IsExpected (dispatch_loop u fd arrivals w)
  unfolding dispatch_loop
  dispatch_loop-IsServing [] w serving = serving
  dispatch_loop-IsServing (a ∷ rest) w serving =
      Ends-bind IsServing IsServing IsExpected (loop_step u fd a w) _
        (loop_step-IsServing a w serving) (λ w' serving'. dispatch_loop-IsServing rest w' serving')
