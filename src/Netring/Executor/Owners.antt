-- ===== src/Netring/Executor/Owners.antt =====
-- Who owns the buffers, the stacks and the objects of the dispatch loop.
pub mod Weights
pub mod Panics
pub mod Completions
pub mod Waits
pub mod Answers
pub mod Begins
pub mod Rounds
pub mod Takes
pub mod Draws
pub mod Ends
use hnet.Prelude.{
  is, ℕ, ◌+◌, ◌≤◌, ◌<◌, ◌≡◌, Bool, true, false, List, ◌∷◌, Option, none, some, if◌then◌else◌,
}
use hnet.Prelude.Results.{Result, ok, err}
use hnet.Five.ObjectPool.{ObjectPoolLite}
use hnet.Ring2.Kernel.{IoUring}
use hnet.Netring.Request.{Request}
use hnet.Netring.Executor.{Fault, Handler, Holder, monostate, request, handler, World, new_request}
use hnet.Netring.Executor.Owners.Weights.{owns, weigh}

-- How often a holder owns the buffer `b`: by its request, and by the reply on its stack.
abbrev pub reply_owns : ℕ → Option Request → ℕ
reply_owns b none = 0
reply_owns b (some r) = owns b r.iov_base

abbrev pub buffer_in : ℕ → Holder → ℕ
buffer_in b monostate = 0
buffer_in b (request r) = owns b r.iov_base
buffer_in b (handler h) = owns b h.request.iov_base + reply_owns b h.reply

-- The stack of a handler that has ended was moved away.
abbrev pub stack_in : ℕ → Holder → ℕ
stack_in b monostate = 0
stack_in b (request r) = 0
stack_in b (handler h) = if h.finished then 0 else is b h.stack

abbrev pub is_none : {A : Type 0} → Option A → Bool
is_none none = true
is_none (some a) = false

-- A handler has ended, or its send is open.
abbrev pub IsCoherent : Holder → Type 0
IsCoherent monostate = Unit {0}
IsCoherent (request r) = Unit {0}
IsCoherent (handler h) = h.finished ≡ is_none h.reply

-- What an object in the pool holds: nothing, or a handler that has ended.
abbrev pub IsIdle : Holder → Type 0
IsIdle monostate = Unit {0}
IsIdle (request r) = ⊥
IsIdle (handler h) = h.finished ≡ true

-- What was allocated up to a state of the allocator.
pub record Log (alloc : ℕ → ℕ × ℕ) : Type 0 where
  pub made : ℕ → List ℕ
  pub grows : (s : ℕ) → made (alloc s).1 ≡ (alloc s).0 ∷ made s

-- The three allocators of the loop; `new` does not return an address twice.
pub record Allocators : Type 0 where
  pub alloc_stack : ℕ → ℕ × ℕ
  pub new_object : ℕ → ℕ × ℕ
  pub malloc : ℕ → ℕ × ℕ
  pub stack_log : Log alloc_stack
  pub object_log : Log new_object
  pub buffer_log : Log malloc
  pub unused : (s : ℕ) → weigh (is (new_object s).0) (object_log.made s) ≡ 0

-- What the loop owns.
pub record Assets : Type 0 where
  pub stacks : ObjectPoolLite ℕ ℕ
  pub spare : ObjectPoolLite ℕ ℕ
  pub requests : ObjectPoolLite ℕ Request
  pub holders : ℕ → Holder
  pub freed : List ℕ

abbrev pub assets : {u : IoUring} → World u → Assets
assets w = record {
  stacks = w.stacks;
  spare = w.holder_pool;
  requests = w.requests;
  holders = w.holders;
  freed = w.freed;
}

module _ (al : Allocators) where
  -- Each buffer is owned as often as it was allocated: by the objects, by the requests in the pool,
  -- or by nobody since it was freed; and so is each stack, by a handler that has not ended or by the
  -- pool. The objects in the pool are allocated ones, each is there once, and none is in use.
  pub record IsSound (s : Assets) : Type 0 where
    pub stack_factory : s.stacks.factory ≡ al.alloc_stack
    pub object_factory : s.spare.factory ≡ al.new_object
    pub request_factory : s.requests.factory ≡ new_request al.malloc
    pub once : (a : ℕ) → weigh (is a) (al.object_log.made s.spare.state) ≤ 1
    pub untouched :
        (a : ℕ) → weigh (is a) (al.object_log.made s.spare.state) ≡ 0 → s.holders a ≡ monostate
    pub spare_made :
        (a : ℕ) → weigh (is a) s.spare.objects ≤ weigh (is a) (al.object_log.made s.spare.state)
    pub idle : (a : ℕ) → 0 < weigh (is a) s.spare.objects → IsIdle (s.holders a)
    pub coherent : (a : ℕ) → IsCoherent (s.holders a)
    pub buffers :
        (b : ℕ)
        → weigh (λ a. buffer_in b (s.holders a)) (al.object_log.made s.spare.state)
            + weigh (λ r. owns b r.iov_base) s.requests.objects
            + weigh (is b) s.freed
          ≡ weigh (is b) (al.buffer_log.made s.requests.state)
    pub stacks_once :
        (b : ℕ)
        → weigh (λ a. stack_in b (s.holders a)) (al.object_log.made s.spare.state)
            + weigh (is b) s.stacks.objects
          ≡ weigh (is b) (al.stack_log.made s.stacks.state)

  abbrev pub IsOwned : {u : IoUring} → World u → Type 0
  IsOwned w = IsSound (assets w)
