-- ===== src/Examples/Pools.antt =====
-- A pool of intrusively linked objects, and its users; tagged pointers to
-- objects; a request that is copied.
use hnet.Prelude.{none, ℕ, ◌≡◌, refl, Bool, true, false, List, [], ◌∷◌, ◌++◌, some, arith, ap, ◌∙◌}
use hnet.Five.ObjectPool.Intrusive.{IntrusiveList, IsDeque, count, get, put, clear, make}
use hnet.Netring.Sure.{Request, Memory, assign_request, destroy}
use hnet.Netring.Sure.Copies.{destroy-assign_request}
use hnet.Five.Objects.{Heap, set_live}
use hnet.Five.ObjectPool.Intrusive.Owned.{World, Call, takes, gives, clears, number, step, IsOwned}
use hnet.Five.ObjectPool.Intrusive.Life.{Runs, stays, goes_on, new_world, Runs-clear}
use hnet.Five.ObjectPool.Ownership.{pull}
use hnet.Five.BitPtr.{get_index, get_aligned, bit_count, log2}
use hnet.Five.BitPtr.Owners.{new_either2, destroy_either2}
use hnet.Five.BitPtr.Owners.Deletion.{destroy_either2-new_either2}

abbrev non_empty : List ℕ → Bool
non_empty [] = false
non_empty (x ∷ xs) = true

abbrev back : List ℕ → ℕ × List ℕ
back [] = (0, [])
back (x ∷ []) = (x, [])
back (x ∷ y ∷ xs) = let (a, rest) = back (y ∷ xs) in (a, x ∷ rest)

abbrev front : List ℕ → ℕ × List ℕ
front [] = (0, [])
front (x ∷ xs) = (x, xs)

abbrev deque : IntrusiveList
deque = record {
  L = List ℕ;
  empty_list = [];
  non_empty = non_empty;
  push_back = λ a s. s ++ a ∷ [];
  pop_back = back;
  pop_front = front;
}

back-append : (xs : List ℕ) (a : ℕ) → back (xs ++ a ∷ []) ≡ (a, xs)
back-append [] a = refl
back-append (x ∷ []) a = refl
back-append (x ∷ y ∷ xs) a = ap (λ r. (r.0, x ∷ r.1)) (back-append (y ∷ xs) a)

abbrev deque_laws : IsDeque deque
deque_laws = record {
  nodes = λ s. s;
  at_empty = refl;
  nothing = λ s e. ap non_empty e;
  something = λ s a xs e. ap non_empty e;
  pushed = λ a s e. refl;
  popped = λ s a xs e. (
    ap (λ q. (back q).0) e ∙ ap (λ r. r.0) (back-append xs a),
    ap (λ q. (back q).1) e ∙ ap (λ r. r.1) (back-append xs a),
  );
  shifted = λ s a xs e. (ap (λ q. (front q).0) e, ap (λ q. (front q).1) e);
}

-- Two objects are made, the first one goes back, is taken and goes back again.
abbrev calls : List Call
calls = takes 7 ∷ takes 9 ∷ gives 1 ∷ takes 8 ∷ gives 0 ∷ []

abbrev left : World deque
left = record {
  pool = 7 ∷ [];
  live = set_live 9 true (set_live 7 true (λ a. false));
  held = 9 ∷ [];
}

runs : Runs deque_laws (new_world deque_laws) calls left
unfolding step get put pull set_live
runs =
    goes_on refl refl
      (goes_on refl refl (goes_on tt refl (goes_on refl refl (goes_on tt refl stays))))

Runs-clear_example :
    (make deque 1 5 (λ n. n) (λ a. false) ≡ some ([], λ a. false))
    × ((v : World deque) × (step left (clears 2) ≡ some v) × IsOwned deque_laws v)
    × (pool : List ℕ) × (live : Heap) × (clear deque 2 (7 ∷ []) left.live ≡ some (pool, live))
    × ((a : ℕ) → count a (9 ∷ []) ≡ number (live a))
Runs-clear_example =
    Runs-clear deque_laws 0 5 (λ n. n) left calls (clears 2) 2 (omega arith) runs (omega arith)
      (omega arith)

destroy_either2-new_either2_example :
    (p : ℕ) × (live : Heap) × (new_either2 5 4 4_096 (λ a. false) ≡ some (p, live))
    × (get_index 5 p ≡ 4)
    × (get_aligned 5 p ≡ 4_096)
    × (destroy_either2 p live 4_096 ≡ true)
    × ((a : ℕ) → false ≡ true → destroy_either2 p live a ≡ true)
unfolding bit_count log2
destroy_either2-new_either2_example =
    destroy_either2-new_either2 5 4 4_096 (λ a. false) (omega arith) (omega arith) (omega arith)
      (omega arith) refl

abbrev blank : Memory
blank = record { requests = λ at. none; buffers = λ a. false }

apart : ◌≡◌ {A = ℕ} 1 2 → ⊥
apart e = omega (arith, e)

destroy-assign_request_example :
    (m : Memory) × (assign_request 1 2 9 500 blank ≡ some m)
    × (r : Request) × (m.requests 2 ≡ some r)
    × (r.iov_base ≡ 9)
    × (m.buffers 9 ≡ false)
    × (destroy 2 m ≡ none)
destroy-assign_request_example = destroy-assign_request 1 2 9 500 blank apart
