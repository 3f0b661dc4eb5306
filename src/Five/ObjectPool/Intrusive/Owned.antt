-- ===== src/Five/ObjectPool/Intrusive/Owned.antt =====
-- A call of an `ObjectPool` keeps every object that is there in one place.
use hnet.Prelude.{
  ℕ, zero, suc, ◌+◌, ◌<◌, ◌≡◌, ◌⊎◌, refl, sym, subst, ap, ◌∙◌, Bool, true, false, List, [], ◌∷◌,
  ◌++◌, Option, none, some, length, ◌==◌, Option-cases, Bool-cases, ==_iff, inl, inr, arith,
}
use hnet.Five.Objects.{Heap, set_live, delete}
use hnet.Five.ObjectPool.Intrusive.{IntrusiveList, IsDeque, count, get, put, clear}
use hnet.Five.ObjectPool.Ownership.{pull}

pub record World (l : IntrusiveList) : Type 0 where
  pub pool : l.L
  pub live : Heap
  pub held : List ℕ

-- A user takes an object, which `new` puts at an address if it makes one, gives back one of those
-- that it holds, by its place, or has the pool delete its spare ones. The fuel is that of the loop.
pub data Call : Type 0 where
  takes : (at : ℕ) → Call
  gives : (place : ℕ) → Call
  clears : (fuel : ℕ) → Call

abbrev pub number : Bool → ℕ
number true = 1
number false = 0

count-append : (a : ℕ) (xs ys : List ℕ) → count a (xs ++ ys) ≡ count a xs + count a ys
count-append a [] ys = omega arith
count-append a (x ∷ xs) ys = ground (arith, count-append a xs ys)

list_end : (xs : List ℕ) → (xs ≡ []) ⊎ ((ys : List ℕ) × (a : ℕ) × (xs ≡ ys ++ a ∷ []))
list_end [] = inl refl
list_end (x ∷ xs) = elim (list_end xs) [
  | inl e ↦ inr ([], x, ap (λ zs. x ∷ zs) e)
  | inr (ys, a, e) ↦ inr (x ∷ ys, a, ap (λ zs. x ∷ zs) e)
]

count-pull :
    (a place : ℕ) (xs : List ℕ) (t : ℕ) (rest : List ℕ)
    → pull place xs ≡ some (t, rest)
    → count a xs ≡ count a (t ∷ rest)
unfolding pull
count-pull a place [] t rest e = cc
count-pull a zero (x ∷ xs) t rest e = ground arith
count-pull a (suc place) (x ∷ xs) t rest e = elim (Option-cases (pull place xs)) [
  | inl empty ↦ ground (arith, empty)
  | inr ((u, tail), found) ↦ ground (arith, found, count-pull a place xs u tail found)
]

module _ {l : IntrusiveList} where
  unfoldable pub step : World l → Call → Option (World l)
  unfolding get put clear pull
  step w (takes at) =
      let (t, pool, live) = get l at w.pool w.live in
      some (record { pool = pool; live = live; held = t ∷ w.held })
  step w (gives place) = elim (pull place w.held) [
    | none ↦ some w
    | some (t, rest) ↦ some (record w { pool = put l t w.pool; held = rest })
  ]
  step w (clears fuel) = elim (clear l fuel w.pool w.live) [
    | none ↦ none
    | some (pool, live) ↦ some (record w { pool = pool; live = live })
  ]

module _ {l : IntrusiveList} (k : IsDeque l) where
  -- Every object that is there is in the pool or with a user, in one place, and no other is.
  abbrev pub IsOwned : World l → Type 0
  IsOwned w = (a : ℕ) → count a (k.nodes w.pool) + count a w.held ≡ number (w.live a)

  -- The first node of the pool is there, and can be deleted.
  deleted :
      (a : ℕ) (nodes : List ℕ) (w : World l)
      → k.nodes w.pool ≡ a ∷ nodes
      → IsOwned w
      → (w.live a ≡ true)
        × ((x : ℕ) → count x nodes + count x w.held ≡ number (set_live a false w.live x))
  unfolding set_live
  deleted a nodes w e owned = (
    ground (arith, ap (count a) e, owned a),
    λ x. elim (Bool-cases (x == a)) [
      | inl same ↦ ground (arith, same, ap (count x) e, owned x)
      | inr apart ↦ ground (arith, apart, ap (count x) e, owned x)
    ],
  )

  pub clear_lem :
      (fuel : ℕ) (nodes : List ℕ) (w : World l)
      → k.nodes w.pool ≡ nodes
      → length nodes < fuel
      → IsOwned w
      → (pool : l.L) × (live : Heap) × (clear l fuel w.pool w.live ≡ some (pool, live))
        × (k.nodes pool ≡ [])
        × IsOwned (record w { pool = pool; live = live })
  unfolding clear delete
  clear_lem zero nodes w e enough owned = absurd (omega arith)
  clear_lem (suc fuel) [] w e enough owned =
      (w.pool, w.live, rw (k.nothing w.pool e) refl, e, owned)
  clear_lem (suc fuel) (a ∷ nodes) w e enough owned =
      let (first, rest) = k.shifted w.pool a nodes e in
      let (there, owned1) = deleted a nodes w e owned in
      let w' : World l = record w {
        pool = (l.pop_front w.pool).1;
        live = set_live a false w.live;
      } in
      let (pool, live, done, empty, owned') =
        clear_lem fuel nodes w' rest (omega arith)
          (λ x. ap (λ ns. count x ns + count x w.held) rest ∙ owned1 x) in
      (pool, live, rw (k.something w.pool a nodes e, first, there, clear) done, empty, owned')

  pub non_empty_end :
      (s : l.L) (xs : List ℕ) (a : ℕ) → k.nodes s ≡ xs ++ a ∷ [] → l.non_empty s ≡ true
  non_empty_end s [] a e = k.something s a [] e
  non_empty_end s (x ∷ xs) a e = k.something s x (xs ++ a ∷ []) e

  takes_lem :
      (at : ℕ) (w : World l)
      → w.live at ≡ false
      → IsOwned w
      → (w' : World l) × (step w (takes at) ≡ some w') × IsOwned w'
  unfolding step get set_live
  takes_lem at w unused owned = elim (list_end (k.nodes w.pool)) [
    | inl e ↦ (
      record w { live = set_live at true w.live; held = at ∷ w.held },
      rw (k.nothing w.pool e) refl,
      λ x. elim (Bool-cases (x == at)) [
        | inl same ↦ ground (
          arith,
          same,
          owned x,
          subst (λ y. w.live y ≡ false) (sym ((==_iff x at).0 same)) unused,
        )
        | inr apart ↦ ground (arith, apart, owned x)
      ],
    )
    | inr (xs, a, e) ↦
        let (last, rest) = k.popped w.pool a xs e in
        (
          record w { pool = (l.pop_back w.pool).1; held = a ∷ w.held },
          rw (non_empty_end w.pool xs a e, last) refl,
          λ x.
              ground
                (arith, owned x, ap (count x) e, ap (count x) rest, count-append x xs (a ∷ [])),
        )
  ]

  gives_lem :
      (place : ℕ) (w : World l)
      → IsOwned w
      → (w' : World l) × (step w (gives place) ≡ some w') × IsOwned w'
  unfolding step put
  gives_lem place w owned = elim (Option-cases (pull place w.held)) [
    | inl nothing ↦ (w, rw (nothing, step) refl, owned)
    | inr ((t, rest), found) ↦
        let unlinked : count t (k.nodes w.pool) ≡ 0 =
          ground (arith, owned t, count-pull t place w.held t rest found) in
        (
          record w { pool = l.push_back t w.pool; held = rest },
          rw (found, step) refl,
          λ x. ground (
            arith,
            owned x,
            ap (count x) (k.pushed t w.pool unlinked),
            count-append x (k.nodes w.pool) (t ∷ []),
            count-pull x place w.held t rest found,
          ),
        )
  ]

  clears_lem :
      (fuel : ℕ) (w : World l)
      → length (k.nodes w.pool) < fuel
      → IsOwned w
      → (w' : World l) × (step w (clears fuel) ≡ some w') × IsOwned w'
  unfolding step
  clears_lem fuel w enough owned =
      let (pool, live, done, empty, owned') = clear_lem fuel (k.nodes w.pool) w refl enough owned in
      (record w { pool = pool; live = live }, rw (done, step) refl, owned')

  -- What the users have to keep to: `new` gives out no address that is in use, and the fuel of a
  -- loop exceeds the number of spare objects. The rest is in the step.
  abbrev pub IsPolite : World l → Call → Type 0
  IsPolite w (takes at) = w.live at ≡ false
  IsPolite w (gives place) = Unit {0}
  IsPolite w (clears fuel) = length (k.nodes w.pool) < fuel

  pub step-IsOwned :
      (w : World l) (c : Call)
      → IsPolite w c
      → IsOwned w
      → (w' : World l) × (step w c ≡ some w') × IsOwned w'
  step-IsOwned w (takes at) polite owned = takes_lem at w polite owned
  step-IsOwned w (gives place) polite owned = gives_lem place w owned
  step-IsOwned w (clears fuel) polite owned = clears_lem fuel w polite owned
