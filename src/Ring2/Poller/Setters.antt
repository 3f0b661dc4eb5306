-- ===== src/Ring2/Poller/Setters.antt =====
-- `UringResSetter` of poller.h, the objects on the fibers' stacks that completions point to, and
-- `dispatch` of poller.cc.
use hnet.Prelude.{
  ℕ, ◌≡◌, Bool, true, false, not, Option, none, some, List, [], ◌∷◌, ◌==◌, if◌then◌else◌, arith,
  ◌≢◌,
}
use hnet.Prelude.Int.{ℤ, ◌==ℤ◌}
use hnet.Prelude.Results.{ok, err, ◌>>=◌}
use hnet.Ring2.Errors.{Outcome, dangling_setter, enocqe}
use hnet.Ring2.Kernel.{UsefulCqe}

-- `should_wake` is always the closure `check_both_set` of `ring_submit`, which captures two setters
-- by reference: their addresses stand for it.
pub record UringResSetter : Type 0 where
  pub fiber : ℕ
  pub res : ℤ
  pub should_wake : Option (ℕ × ℕ)

-- The live setters by their address.
abbrev pub Store : Type 0
Store = ℕ → Option UringResSetter

unfoldable pub update : Store → ℕ → UringResSetter → Store
update h a s b = if b == a then some s else h b

pub update_self : (h : Store) (a : ℕ) (s : UringResSetter) → update h a s a ≡ some s
unfolding update
update_self h a s = ground arith

pub update_ne : (h : Store) (a b : ℕ) (s : UringResSetter) → b ≢ a → update h a s b ≡ h b
unfolding update
update_ne h a b s p = ground arith

abbrev pub load : Store → ℕ → Outcome UringResSetter
load h a = elim (h a) [ none ↦ err dangling_setter | some s ↦ ok s ]

-- `check_both_set`: `&&` reads the second setter only if the first is set.
unfoldable pub check_both_set : ℕ → ℕ → Store → Outcome Bool
check_both_set op timeout h = do
  first ← load h op
  if first.res ==ℤ enocqe
      then ok false
      else (load h timeout >>= λ second. ok (not (second.res ==ℤ enocqe)))

unfoldable pub wakes : Option (ℕ × ℕ) → Store → Outcome Bool
unfolding check_both_set
wakes none h = ok true
wakes (some (op, timeout)) h = check_both_set op timeout h

-- The fiber to wake, if it is to be woken.
unfoldable pub dispatch : UsefulCqe → Store → Outcome (Option ℕ × Store)
unfolding wakes
dispatch cqe h = do
  setter ← load h cqe.user_data
  let h' = update h cqe.user_data (record setter { res = cqe.res })
  wake ← wakes setter.should_wake h'
  ok (if wake then some setter.fiber else none, h')

-- The loop of `TryPollMany` over the completions that were taken.
unfoldable pub dispatch_all : List UsefulCqe → Store → Outcome (List (Option ℕ) × Store)
dispatch_all [] h = ok ([], h)
dispatch_all (c ∷ cs) h = do
  (fiber, h') ← dispatch c h
  (fibers, h'') ← dispatch_all cs h'
  ok (fiber ∷ fibers, h'')
