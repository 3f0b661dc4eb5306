-- ===== src/Five/ObjectPool/Reuse.antt =====
-- What a pool starts with, and what it gives out.
use hnet.Prelude.{ℕ, zero, suc, ◌<◌, ◌^◌, ◌≡◌, refl, List, [], ◌∷◌, some, arith}
use hnet.Prelude.Int.{pos, ◌+ℤ◌, ◌-ℤ◌, ◌*ℤ◌, tdiv}
use hnet.Five.Xrange.{Xrange, make as make_range, calc_real_stop, div_i64, xrange_to}
use hnet.Five.Xrange.Range.{visit-nothing}
use hnet.Five.ObjectPool.{ObjectPoolLite, make, get, put}

real_stop-total : (n : ℕ) → n < 2 ^ 63 → calc_real_stop (pos 0) (pos n) (pos 1) ≡ some (pos n)
unfolding calc_real_stop div_i64 tdiv ◌+ℤ◌ ◌-ℤ◌ ◌*ℤ◌
real_stop-total n small = ground arith

abbrev pub range_of : ℕ → Xrange
range_of n = record { start = pos 0; stop = pos n; step = pos 1 }

pub range_made : (n : ℕ) → n < 2 ^ 63 → make_range (pos 0) (pos n) (pos 1) ≡ some (range_of n)
unfolding make_range
range_made n small = rw (real_stop-total n small, make_range)

pub xrange_to-total : (n : ℕ) → n < 2 ^ 63 → xrange_to (pos n) ≡ some (range_of n)
unfolding xrange_to
xrange_to-total n small = range_made n small

module _ {S A : Type 0} where
  -- A pool starts empty and its factory has not run, however many objects below 2 ^ 63 it was to
  -- start with: the loop of its constructor goes over a range.
  pub make-empty :
      (fuel initial : ℕ) (factory : S → A × S) (state : S)
      → initial < 2 ^ 63
      → make (suc fuel) initial factory state
        ≡ some (record { objects = []; factory = factory; state = state })
  unfolding make
  make-empty fuel initial factory state small =
      rw (xrange_to-total initial small, make)
        (rw (
          visit-nothing (pos 0) (pos initial) (pos 1) (range_of initial) fuel
              (range_made initial small),
          make,
        ))

  abbrev pub put_all : List A → ObjectPoolLite S A → ObjectPoolLite S A
  put_all [] p = p
  put_all (x ∷ xs) p = put_all xs (put x p)

  abbrev pub get_many : ℕ → ObjectPoolLite S A → List A × ObjectPoolLite S A
  get_many zero p = ([], p)
  get_many (suc n) p = let (a, p') = get p in let (xs, q) = get_many n p' in (a ∷ xs, q)

  pub get-put : (a : A) (p : ObjectPoolLite S A) → get (put a p) ≡ (a, p)
  unfolding get put
  get-put a p = refl
