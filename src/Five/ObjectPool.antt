-- ===== src/Five/ObjectPool.antt =====
-- five/five/object_pool.h: `ObjectPoolLite`, a stack of spare objects and a factory for new ones.
pub mod Ownership
pub mod Reuse
pub mod Intrusive
use hnet.Prelude.{ℕ, zero, suc, List, [], ◌∷◌, Option, none, some, length}
use hnet.Prelude.Int.{ℤ, pos}
use hnet.Prelude.Options.{◌>>=◌}
use hnet.Five.Xrange.{begin, end, visit, xrange_to}

-- The factory is a function with a state of its own. The back of the deque is the head of the list.
pub record ObjectPoolLite (S A : Type 0) : Type 0 where
  pub objects : List A
  pub factory : S → A × S
  pub state : S

module _ {S A : Type 0} where
  -- The body of the constructor's loop, for each value of the range.
  unfoldable pub fill : List ℤ → ObjectPoolLite S A → ObjectPoolLite S A
  fill [] p = p
  fill (i ∷ is) p =
      let (a, s) = p.factory p.state in fill is (record p { objects = a ∷ p.objects; state = s })

  -- The constructor, with fuel for its loop. `none` is the end of the fuel or undefined behaviour.
  unfoldable pub make : ℕ → ℕ → (S → A × S) → S → Option (ObjectPoolLite S A)
  unfolding fill
  make fuel initial factory state = do
    range ← xrange_to (pos initial)
    visited ← visit fuel (begin range) (end range)
    values ← visited
    some (fill values (record { objects = []; factory = factory; state = state }))

  unfoldable pub get : ObjectPoolLite S A → A × ObjectPoolLite S A
  get p = elim p.objects [
    | a ∷ rest ↦ (a, record p { objects = rest })
    | [] ↦ (let (a, s) = p.factory p.state in (a, record p { state = s }))
  ]

  unfoldable pub put : A → ObjectPoolLite S A → ObjectPoolLite S A
  put a p = record p { objects = a ∷ p.objects }

  unfoldable pub clear : ObjectPoolLite S A → ObjectPoolLite S A
  clear p = record p { objects = [] }

  unfoldable pub size : ObjectPoolLite S A → ℕ
  size p = length p.objects
