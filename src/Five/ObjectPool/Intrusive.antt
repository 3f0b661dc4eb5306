-- ===== src/Five/ObjectPool/Intrusive.antt =====
-- five/five/object_pool.h: `ObjectPool`, which keeps spare objects in an intrusive list of wheels and
-- makes and deletes them itself. The list is a parameter, and so is the address of each new object.
pub mod Owned
pub mod Life
use hnet.Prelude.{
  ℕ, zero, suc, ◌≡◌, Bool, true, false, not, List, [], ◌∷◌, ◌++◌, Option, none, some, ◌==◌,
  if◌then◌else◌,
}
use hnet.Prelude.Int.{ℤ, pos}
use hnet.Prelude.Options.{◌>>=◌}
use hnet.Five.Objects.{Heap, set_live, delete}
use hnet.Five.Xrange.{begin, end, visit, xrange_to}

-- `wheels::IntrusiveList<T>`: its elements are pointers to the nodes.
pub record IntrusiveList : Type 1 where
  pub L : Type 0
  pub empty_list : L
  pub non_empty : L → Bool
  pub push_back : ℕ → L → L
  pub pop_back : L → ℕ × L
  pub pop_front : L → ℕ × L

-- How often an element is in a list.
abbrev pub count : ℕ → List ℕ → ℕ
count a [] = 0
count a (x ∷ xs) = if a == x then suc (count a xs) else count a xs

-- What the code relies on: the list keeps its nodes in order, as long as no node that is linked is
-- pushed.
pub record IsDeque (l : IntrusiveList) : Type 0 where
  pub nodes : l.L → List ℕ
  pub at_empty : nodes l.empty_list ≡ []
  pub nothing : (s : l.L) → nodes s ≡ [] → l.non_empty s ≡ false
  pub something : (s : l.L) (a : ℕ) (xs : List ℕ) → nodes s ≡ a ∷ xs → l.non_empty s ≡ true
  pub pushed :
      (a : ℕ) (s : l.L) → count a (nodes s) ≡ 0 → nodes (l.push_back a s) ≡ nodes s ++ a ∷ []
  pub popped :
      (s : l.L) (a : ℕ) (xs : List ℕ)
      → nodes s ≡ xs ++ a ∷ []
      → ((l.pop_back s).0 ≡ a) × (nodes (l.pop_back s).1 ≡ xs)
  pub shifted :
      (s : l.L) (a : ℕ) (xs : List ℕ)
      → nodes s ≡ a ∷ xs
      → ((l.pop_front s).0 ≡ a) × (nodes (l.pop_front s).1 ≡ xs)

module _ (l : IntrusiveList) where
  -- `Get`; `at` is where `new` puts an object if it is called.
  unfoldable pub get : ℕ → l.L → Heap → ℕ × l.L × Heap
  unfolding set_live
  get at s live =
      if l.non_empty s
      then (let (a, s') = l.pop_back s in (a, s', live))
      else (at, s, set_live at true live)

  -- `Put`.
  unfoldable pub put : ℕ → l.L → l.L
  put t s = l.push_back t s

  -- `Clear`, and the destructor, which calls it. The loop has fuel; `none` is its end or undefined
  -- behaviour.
  unfoldable pub clear : ℕ → l.L → Heap → Option (l.L × Heap)
  unfolding delete
  clear zero s live = none
  clear (suc fuel) s live =
      let (a, s') = l.pop_front s in
      let rest : Option (l.L × Heap) = elim (delete a live) [
        | none ↦ none
        | some live' ↦ clear fuel s' live'
      ] in
      if not (l.non_empty s) then some (s, live) else rest

  -- The body of the constructor's loop, for each value of the range; `fresh` is where the objects go.
  unfoldable pub fill : List ℤ → (ℕ → ℕ) → l.L → Heap → l.L × Heap
  unfolding set_live
  fill [] fresh s live = (s, live)
  fill (i ∷ is) fresh s live =
      fill is (λ n. fresh (suc n)) (l.push_back (fresh 0) s) (set_live (fresh 0) true live)

  unfoldable pub make : ℕ → ℕ → (ℕ → ℕ) → Heap → Option (l.L × Heap)
  unfolding fill
  make fuel initial fresh live = do
    range ← xrange_to (pos initial)
    visited ← visit fuel (begin range) (end range)
    values ← visited
    some (fill values fresh l.empty_list live)
