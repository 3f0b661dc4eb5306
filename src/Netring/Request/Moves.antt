-- ===== src/Netring/Request/Moves.antt =====
-- How often a buffer is freed.
use hnet.Prelude.{ℕ, zero, suc, ◌≡◌, refl, true, false, List, [], ◌∷◌, ◌++◌, Option, none, some}
use hnet.Netring.Request.{Request, make_request, free_iovs, clear, move, destroy}

-- A request is moved from object to object, and then all of them are destroyed, the last one first:
-- the buffers that are freed, in order.
unfoldable pub lifetime : ℕ → Request → Option (List ℕ)
lifetime zero r = destroy r
lifetime (suc n) r = elim (move r) [
  | none ↦ none
  | some (moved, husk, early) ↦ elim (lifetime n moved) [
    | none ↦ none
    | some middle ↦ elim (destroy husk) [
      | none ↦ none
      | some late ↦ some (early ++ (middle ++ late))
    ]
  ]
]

-- A request that has a buffer, and whose header points to it.
pub record IsOwner (base : ℕ) (r : Request) : Type 0 where
  pub has_base : r.iov_base ≡ some base
  pub points : r.msg_iov ≡ true
  pub has_one : r.msg_iovlen ≡ 1

-- A move leaves an object that has nothing to free, and the new one has the buffer.
move-IsOwner :
    (base : ℕ) (r : Request)
    → IsOwner base r
    → (moved husk : Request) × (move r ≡ some (moved, husk, []))
      × IsOwner base moved
      × (destroy husk ≡ some [])
unfolding move destroy clear free_iovs
move-IsOwner base r o = (
  record r { msg_iov = true; msg_name = true },
  record r {
    iov_base = none;
    iov_len = 0;
    msg_iov = false;
    msg_name = false;
    msg_namelen = 0;
    msg_iovlen = 0;
  },
  rw (o.has_one, free_iovs) (rw o.points),
  record { has_base = o.has_base; points = refl; has_one = o.has_one },
  refl,
)

lifetime-IsOwner : (n base : ℕ) (r : Request) → IsOwner base r → lifetime n r ≡ some (base ∷ [])
unfolding lifetime destroy clear free_iovs
lifetime-IsOwner zero base r o = rw (o.has_one, free_iovs) (rw (o.points, o.has_base))
lifetime-IsOwner (suc n) base r o =
    let (moved, husk, made, owner, nothing) = move-IsOwner base r o in
    rw (made, lifetime) (rw (lifetime-IsOwner n base moved owner) (rw nothing))

-- However often a request is moved, its buffer is freed once, and nothing else is, when all the
-- objects that it went through are destroyed.
pub lifetime_lem : (n base iov_len : ℕ) → lifetime n (make_request base iov_len) ≡ some (base ∷ [])
unfolding make_request
lifetime_lem n base iov_len =
    lifetime-IsOwner n base (make_request base iov_len)
      (record { has_base = refl; points = refl; has_one = refl })
