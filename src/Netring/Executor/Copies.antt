-- ===== src/Netring/Executor/Copies.antt =====
-- The two copies of a datagram that the handler makes.
use hnet.Prelude.{
  ℕ, ◌+◌, ◌*◌, ◌<◌, ◌≤◌, ◌≡◌, ◌≢◌, refl, ap, ◌∙◌, List, ◌++◌, some, take, length, arith,
}
use hnet.Prelude.Int.{pos}
use hnet.Prelude.Results.{Result, ok, err, ◌>>=◌}
use hnet.Prelude.Memory.{
  overwrite, write_at, take-overwrite, take-write_at, length-overwrite, length-write_at,
}
use hnet.Five.ObjectPool.{get}
use hnet.Ring2.Kernel.{IoUring}
use hnet.Netring.Uring.{send_cookie}
use hnet.Netring.Request.{Request}
use hnet.Netring.Executor.{
  Fault, out_of_bounds, Handler, handler, World, store, size_of, memcpy, addr_of, start_handler,
}

memcpy-ok :
    (at n : ℕ) (src dst : List ℕ)
    → n ≤ length src
    → at + n ≤ length dst
    → memcpy at n src dst ≡ ok (write_at at (take n src) dst)
unfolding memcpy
memcpy-ok at n src dst h k = ground arith

memcpy-err :
    (at n : ℕ) (src dst : List ℕ) → length dst < at + n → memcpy at n src dst ≡ err out_of_bounds
unfolding memcpy
memcpy-err at n src dst h = ground arith

pub store_self : {A : Type 0} (at : ℕ) (x : A) (f : ℕ → A) → store at x f at ≡ x
unfolding store
store_self at x f = ground arith

pub store_ne : {A : Type 0} (at b : ℕ) (x : A) (f : ℕ → A) → b ≢ at → store at x f b ≡ f b
unfolding store
store_ne at b x f h = ground arith

size_of-pos : (n : ℕ) → size_of (pos n) ≡ ok n
size_of-pos n = ground arith

-- The buffer after the two copies of `p`.
abbrev pub doubled : List ℕ → List ℕ → List ℕ
doubled p buf = write_at (length p) p (write_at 0 p buf)

take-doubled :
    (p buf : List ℕ) → length p * 2 ≤ length buf → take (length p * 2) (doubled p buf) ≡ p ++ p
unfolding write_at
take-doubled p buf h =
    let two : length p * 2 ≡ length p + length p = omega arith in
    rw two (
      take-write_at (length p) p (overwrite p buf) (omega (arith, length-overwrite p buf))
      ∙ ap (λ l. l ++ p) (take-overwrite p buf (omega arith)))

-- Two copies that do not both fit fail, whatever was to follow.
two_copies-err :
    {A : Type 0} (n : ℕ) (src dst : List ℕ) (after : List ℕ → Result Fault A)
    → length dst < n * 2
    → (memcpy 0 n src dst >>= λ first. memcpy n n src first >>= after) ≡ err out_of_bounds
unfolding memcpy write_at
two_copies-err n src dst after long = ground (arith, length-overwrite (take n src) dst)

module _ {u : IoUring} (fd at : ℕ) (h : Handler) (v : World u) (p : List ℕ) (from to : ℕ) where
  -- The reply that a handler gets, and the pool without it.
  abbrev pub drawn : Request
  drawn = (get v.requests).0

  pub start_handler-ok :
      (q : u.Q)
      → h.last_cqe.res ≡ pos (length p)
      → h.request.iov_base ≡ some from
      → drawn.iov_base ≡ some to
      → length p ≤ length (v.buffers from)
      → take (length p) (v.buffers from) ≡ p
      → length p * 2 ≤ length (v.buffers to)
      → send_cookie u fd (p ++ p) (addr_of h.request.addr) h.cookie v.ring ≡ some q
      → start_handler u fd at h v
        ≡ ok (record v {
          ring = q;
          requests = (get v.requests).1;
          buffers = store to (doubled p (v.buffers to)) v.buffers;
          holders =
              store at
                (handler (record h {
                  reply = some (record drawn { iov_len = length p * 2; addr = h.request.addr });
                }))
                v.holders;
        })
  unfolding start_handler
  start_handler-ok q res base base' fits whole room sent =
      let n = length p in
      let src = v.buffers from in
      let dst = v.buffers to in
      let once : memcpy 0 n src dst ≡ ok (write_at 0 p dst) =
        memcpy-ok 0 n src dst fits (omega arith) ∙ ap (λ l. ok (write_at 0 l dst)) whole in
      let again : memcpy n n src (write_at 0 p dst) ≡ ok (doubled p dst) =
        memcpy-ok n n src (write_at 0 p dst) fits (omega (arith, length-write_at 0 p dst))
        ∙ ap (λ l. ok (write_at n l (write_at 0 p dst))) whole in
      rw (res, start_handler)
        (rw (size_of-pos n, start_handler)
          (rw (base, start_handler)
            (rw (base', start_handler)
              (rw (once, start_handler)
                (rw (again, start_handler)
                  (rw (take-doubled p dst room, start_handler) (rw (sent, start_handler) refl)))))))

  pub start_handler-err :
      h.last_cqe.res ≡ pos (length p)
      → h.request.iov_base ≡ some from
      → drawn.iov_base ≡ some to
      → length (v.buffers to) < length p * 2
      → start_handler u fd at h v ≡ err out_of_bounds
  unfolding start_handler
  start_handler-err res base base' long =
      rw (res, start_handler)
        (rw (size_of-pos (length p), start_handler)
          (rw (base, start_handler)
            (rw (base', start_handler)
              (two_copies-err (length p) (v.buffers from) (v.buffers to) _ long))))
