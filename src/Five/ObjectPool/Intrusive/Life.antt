-- ===== src/Five/ObjectPool/Intrusive/Life.antt =====
-- The life of an `ObjectPool`: from the constructor, over the calls of its users, to the destructor.
use hnet.Prelude.{ℕ, suc, ◌^◌, ◌<◌, ◌≡◌, refl, subst, ap, false, List, [], ◌∷◌, some, length, arith}
use hnet.Five.Objects.{Heap}
use hnet.Five.ObjectPool.Intrusive.{IntrusiveList, IsDeque, count, get, put, clear, make, fill}
use hnet.Prelude.Int.{pos}
use hnet.Five.Xrange.Range.{visit-nothing}
use hnet.Five.ObjectPool.Reuse.{range_of, range_made, xrange_to-total}
use hnet.Five.ObjectPool.Intrusive.Owned.{
  World, Call, number, step, IsOwned, clear_lem, non_empty_end, IsPolite, step-IsOwned,
}

module _ {l : IntrusiveList} (k : IsDeque l) where
  -- Calls one after the other, and the worlds that they lead through.
  pub data Runs : World l → List Call → World l → Type 0 where
    stays : {w : World l} → Runs w [] w
    goes_on :
        {w w' w'' : World l} {c : Call} {cs : List Call}
        → IsPolite k w c
        → step w c ≡ some w'
        → Runs w' cs w''
        → Runs w (c ∷ cs) w''

  Runs-IsOwned : (w w' : World l) (cs : List Call) → Runs w cs w' → IsOwned k w → IsOwned k w'
  Runs-IsOwned w _ _ stays owned = owned
  Runs-IsOwned w w'' _ (goes_on {w' = w'} {c = c} {cs = cs} polite stepped rest) owned =
      let (v, stepped', owned') = step-IsOwned k w c polite owned in
      let same : v ≡ w' = ground (arith, stepped, stepped') in
      Runs-IsOwned w' w'' cs rest (subst (IsOwned k) same owned')

  -- The constructor makes no objects: the loop over the range ends at once.
  make-empty :
      (fuel initial : ℕ) (fresh : ℕ → ℕ) (live : Heap)
      → initial < 2 ^ 63
      → make l (suc fuel) initial fresh live ≡ some (l.empty_list, live)
  unfolding make fill
  make-empty fuel initial fresh live small =
      rw (xrange_to-total initial small, make)
        (rw
          (
            visit-nothing (pos 0) (pos initial) (pos 1) (range_of initial) fuel
                (range_made initial small),
            make,
          )
          refl)

  -- A pool and its users, when it is made with any number of objects below 2 ^ 63.
  abbrev pub new_world : World l
  new_world = record { pool = l.empty_list; live = λ a. false; held = [] }

  -- From the constructor on, whatever the users do in keeping with the rules: no call deletes what is
  -- not there, the next one works and leaves every object with the pool or with one user, and the
  -- destructor leaves just those that users hold.
  pub Runs-clear :
      (more initial : ℕ) (fresh : ℕ → ℕ) (w : World l) (cs : List Call) (c : Call) (fuel : ℕ)
      → initial < 2 ^ 63
      → Runs new_world cs w
      → IsPolite k w c
      → length (k.nodes w.pool) < fuel
      → (make l (suc more) initial fresh (λ a. false) ≡ some (new_world.pool, new_world.live))
        × ((v : World l) × (step w c ≡ some v) × IsOwned k v)
        × (pool : l.L) × (live : Heap) × (clear l fuel w.pool w.live ≡ some (pool, live))
        × ((a : ℕ) → count a w.held ≡ number (live a))
  Runs-clear more initial fresh w cs c fuel small runs polite enough =
      let start : IsOwned k new_world = λ a. ground (arith, ap (count a) k.at_empty) in
      let owned = Runs-IsOwned new_world w cs runs start in
      let (pool, live, done, empty, left) = clear_lem k fuel (k.nodes w.pool) w refl enough owned in
      (
        make-empty more initial fresh (λ a. false) small,
        step-IsOwned k w c polite owned,
        pool,
        live,
        done,
        λ a. omega (arith, ap (count a) empty, left a),
      )

  -- What was put back last is taken first, and nothing is made.
  pub get-put :
      (at a : ℕ) (s : l.L) (live : Heap)
      → count a (k.nodes s) ≡ 0
      → (s' : l.L) × (get l at (put l a s) live ≡ (a, s', live)) × (k.nodes s' ≡ k.nodes s)
  unfolding get put
  get-put at a s live unlinked =
      let linked = k.pushed a s unlinked in
      let (last, rest) = k.popped (l.push_back a s) a (k.nodes s) linked in
      (
        (l.pop_back (l.push_back a s)).1,
        rw (non_empty_end k (l.push_back a s) (k.nodes s) a linked, last, get) refl,
        rest,
      )
