-- ===== src/Five/ObjectPool/Ownership.antt =====
-- Who holds the objects of a pool.
use mathlib.Core.List.{Perm, perm_middle, perm_append_comm}
use mathlib.Core.List.Perm
use hnet.Prelude.{
  ℕ, zero, suc, ◌≡◌, refl, subst, List, [], ◌∷◌, ◌++◌, append_assoc, Option, none, some,
  Option-cases, inl, inr, arith,
}
use hnet.Five.ObjectPool.{ObjectPoolLite, get, put, clear}

-- The pool, what its users hold, what `clear` has destroyed, and what the factory has made.
pub record World (S A : Type 0) : Type 0 where
  pub pool : ObjectPoolLite S A
  pub held : List A
  pub destroyed : List A
  pub made : List A

-- A user takes an object, gives back one of those that it holds, or clears the pool.
pub data Call : Type 0 where
  takes clears : Call
  gives : ℕ → Call

module _ {A : Type 0} where
  -- The object at a place among those that are held.
  unfoldable pub pull : ℕ → List A → Option (A × List A)
  pull n [] = none
  pull zero (x ∷ xs) = some (x, xs)
  pull (suc n) (x ∷ xs) = elim (pull n xs) [ none ↦ none | some (a, rest) ↦ some (a, x ∷ rest) ]

  abbrev pub made_by : List A → A → List A → List A
  made_by [] a made = a ∷ made
  made_by (x ∷ xs) a made = made

  pull-perm :
      (n : ℕ) (xs : List A) (a : A) (rest : List A)
      → pull n xs ≡ some (a, rest)
      → Perm xs (a ∷ rest)
  unfolding pull
  pull-perm n [] a rest e = cc
  pull-perm zero (x ∷ xs) a rest e =
      subst (λ l. Perm (x ∷ xs) l) (ground arith) (Perm.refl (x ∷ xs))
  pull-perm (suc n) (x ∷ xs) a rest e = elim (Option-cases (pull n xs)) [
    | inl empty ↦ ground (arith, empty)
    | inr ((b, tail), found) ↦
        subst (λ l. Perm (x ∷ xs) l) (ground (arith, found))
          (Perm.trans (Perm.cons x (pull-perm n xs b tail found)) (Perm.swap b x tail))
  ]

  move : (xs ys zs : List A) → Perm (xs ++ (ys ++ zs)) (ys ++ (xs ++ zs))
  move xs ys zs =
      subst (λ l. Perm l (ys ++ (xs ++ zs))) (append_assoc xs ys zs)
        (subst (λ l. Perm ((xs ++ ys) ++ zs) l) (append_assoc ys xs zs)
          (Perm.append_right zs (perm_append_comm xs ys)))

module _ {S A : Type 0} where
  unfoldable pub step : World S A → Call → World S A
  unfolding pull
  step w takes =
      let (a, p) = get w.pool in
      record w { pool = p; held = a ∷ w.held; made = made_by w.pool.objects a w.made }
  step w clears = record w { pool = clear w.pool; destroyed = w.pool.objects ++ w.destroyed }
  step w (gives n) = elim (pull n w.held) [
    | none ↦ w
    | some (a, rest) ↦ record w { pool = put a w.pool; held = rest }
  ]

  unfoldable pub run : World S A → List Call → World S A
  unfolding step
  run w [] = w
  run w (c ∷ cs) = run (step w c) cs

  -- Where every object is.
  abbrev pub owned : World S A → List A
  owned w = w.pool.objects ++ (w.held ++ w.destroyed)

  takes-owned :
      (w : World S A) (xs : List A)
      → w.pool.objects ≡ xs
      → Perm (owned w) w.made
      → Perm (owned (step w takes)) (step w takes).made
  unfolding step get
  takes-owned w [] e h =
      rw (e, get) (Perm.trans (perm_middle w.pool.objects (w.held ++ w.destroyed)) (Perm.cons _ h))
  takes-owned w (x ∷ xs) e h =
      rw (e, get) (Perm.trans (perm_middle xs (w.held ++ w.destroyed)) (rw e at h))

  step-owned :
      (w : World S A) (c : Call) → Perm (owned w) w.made → Perm (owned (step w c)) (step w c).made
  unfolding step put clear
  step-owned w takes h = takes-owned w w.pool.objects refl h
  step-owned w clears h = Perm.trans (move w.held w.pool.objects w.destroyed) h
  step-owned w (gives n) h = elim (Option-cases (pull n w.held)) [
    | inl empty ↦ rw (empty, step) h
    | inr ((a, rest), found) ↦
        rw (found, step)
          (Perm.trans
            (Perm.symm (
              Perm.trans
                (Perm.append_left w.pool.objects
                  (Perm.append_right w.destroyed (pull-perm n w.held a rest found)))
                (perm_middle w.pool.objects (rest ++ w.destroyed))))
            h)
  ]

  -- Whatever the users do, if the objects in the pool, with the users and destroyed were those that
  -- the factory had made, each as often, they still are: none is lost, and none is in two places.
  pub run-owned :
      (w : World S A) (cs : List Call)
      → Perm (owned w) w.made
      → Perm (owned (run w cs)) (run w cs).made
  unfolding run
  run-owned w [] h = h
  run-owned w (c ∷ cs) h = run-owned (step w c) cs (step-owned w c h)
