-- ===== src/Netring/Sure/Copies.antt =====
-- What is left of a request that was assigned from a temporary one.
use hnet.Prelude.{
  ℕ, Bool, ap, ◌∙◌, ◌≡◌, ◌≢◌, refl, sym, true, false, Option, none, some, ◌==◌, Bool-cases, ==_iff,
  inl, inr, arith,
}
use hnet.Prelude.Options.{◌>>=◌}
use hnet.Five.Objects.{Heap, set_live, delete}
use hnet.Netring.Sure.{
  Request, Memory, set_request, make_request, copy_request, free_iovs, destroy, assign_request,
}

set_request_self :
    (at : ℕ) (r : Option Request) (requests : ℕ → Option Request) → set_request at r requests at ≡ r
unfolding set_request
set_request_self at r requests = ground arith

set_request_ne :
    (at x : ℕ) (r : Option Request) (requests : ℕ → Option Request)
    → at ≢ x
    → set_request at r requests x ≡ requests x
unfolding set_request
set_request_ne at x r requests apart = elim (Bool-cases (x == at)) [
  | inl same ↦ absurd (apart (sym ((==_iff x at).0 same)))
  | inr other ↦ rw (other) refl
]

set_live_self : (at : ℕ) (b : Bool) (live : Heap) → set_live at b live at ≡ b
unfolding set_live
set_live_self at b live = ground arith

copy_request-some :
    (from to : ℕ) (r : Request) (m : Memory)
    → m.requests from ≡ some r
    → copy_request from to m ≡ some (record m { requests = set_request to (some r) m.requests })
unfolding copy_request
copy_request-some from to r m there = rw (there) refl

destroy-some :
    (at : ℕ) (r owner : Request) (m : Memory)
    → m.requests at ≡ some r
    → r.msg_iovlen ≡ 1
    → m.requests r.msg_iov ≡ some owner
    → m.buffers owner.iov_base ≡ true
    → destroy at m
      ≡ some (record {
        requests = set_request at none m.requests;
        buffers = set_live owner.iov_base false m.buffers;
      })
unfolding destroy free_iovs delete
destroy-some at r owner m there one points live = rw (there) (rw (one) (rw (points, live) refl))

destroy-none :
    (at : ℕ) (r : Request) (m : Memory)
    → m.requests at ≡ some r
    → r.msg_iovlen ≡ 1
    → m.requests r.msg_iov ≡ none
    → destroy at m ≡ none
unfolding destroy free_iovs
destroy-none at r m there one dangles = rw (there) (rw (one) (rw (dangles) refl))

-- Where a request is assigned from a temporary one, the content has the address of a buffer that is
-- freed already, and to destroy the content is undefined behaviour.
pub destroy-assign_request :
    (temp content base iov_len : ℕ) (m : Memory)
    → temp ≢ content
    → (m' : Memory) × (assign_request temp content base iov_len m ≡ some m')
      × (r : Request) × (m'.requests content ≡ some r)
      × (r.iov_base ≡ base)
      × (m'.buffers base ≡ false)
      × (destroy content m' ≡ none)
unfolding assign_request make_request
destroy-assign_request temp content base iov_len m apart =
    let r : Request = record {
      iov_base = base;
      iov_len = iov_len;
      msg_iov = temp;
      msg_iovlen = 1;
      msg_name = temp;
      msg_namelen = 28;
    } in
    let m1 : Memory = make_request temp base iov_len m in
    let m2 : Memory = record m1 { requests = set_request content (some r) m1.requests } in
    let m3 : Memory = record {
      requests = set_request temp none m2.requests;
      buffers = set_live base false m1.buffers;
    } in
    let copied : copy_request temp content m1 ≡ some m2 =
      copy_request-some temp content r m1 (set_request_self temp (some r) m.requests) in
    let still : m2.requests temp ≡ some r =
      set_request_ne content temp (some r) m1.requests (λ e. apart (sym e))
      ∙ set_request_self temp (some r) m.requests in
    let destroyed : destroy temp m2 ≡ some m3 =
      destroy-some temp r r m2 still refl still (set_live_self base true m.buffers) in
    let kept : m3.requests content ≡ some r =
      set_request_ne temp content none m2.requests apart
      ∙ set_request_self content (some r) m1.requests in
    (
      m3,
      ap (λ o. o >>= destroy temp) copied ∙ destroyed,
      r,
      kept,
      refl,
      set_live_self base false m1.buffers,
      destroy-none content r m3 kept refl (set_request_self temp none m2.requests),
    )
