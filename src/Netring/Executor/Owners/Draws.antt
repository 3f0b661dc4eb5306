-- ===== src/Netring/Executor/Owners/Draws.antt =====
-- An object that the loop draws from its pool.
use hnet.Prelude.{
  is, ℕ, ◌+◌, ◌≤◌, ◌≡◌, refl, ap, List, [], ◌∷◌, ◌==◌, List-cases, Bool-cases, inl, inr, arith,
}
use hnet.Five.ObjectPool.{ObjectPoolLite, get}
use hnet.Netring.Executor.{Holder, monostate}
use hnet.Netring.Executor.Owners.{Allocators, Assets, IsIdle, IsSound}
use hnet.Netring.Executor.Owners.Weights.{weigh}

module _ (al : Allocators) (s : Assets) (sound : IsSound al s) where
  abbrev pub drawn : ℕ
  drawn = (get s.spare).0

  abbrev pub left : ObjectPoolLite ℕ ℕ
  left = (get s.spare).1

  abbrev pub made_then : List ℕ
  made_then = al.object_log.made left.state

  -- The object that is drawn is allocated once, idle, and no longer in the pool. One that was just
  -- allocated holds nothing.
  pub record Drawn : Type 0 where
    pub made_once : (a : ℕ) → weigh (is a) made_then ≤ 1
    pub is_made : weigh (is drawn) made_then ≡ 1
    pub is_idle : IsIdle (s.holders drawn)
    pub is_out : weigh (is drawn) left.objects ≡ 0
    pub fewer : (a : ℕ) → weigh (is a) left.objects ≤ weigh (is a) s.spare.objects
    pub kept : (a : ℕ) → weigh (is a) (al.object_log.made s.spare.state) ≤ weigh (is a) made_then
    pub same_weight :
        (f : Holder → ℕ)
        → f monostate ≡ 0
        → weigh (λ a. f (s.holders a)) made_then
          ≡ weigh (λ a. f (s.holders a)) (al.object_log.made s.spare.state)

  from_pool : (x : ℕ) (rest : List ℕ) → s.spare.objects ≡ x ∷ rest → Drawn
  unfolding get
  from_pool x rest full =
      let sum : (a : ℕ) → weigh (is a) s.spare.objects ≡ is a x + weigh (is a) rest =
        λ a. ap (weigh (is a)) full in
      record {
        made_once = λ a. rw (full, get) (sound.once a);
        is_made = rw (full, get) (ground (arith, sum x, sound.spare_made x, sound.once x));
        is_idle = rw (full, get) (sound.idle x (ground (arith, sum x)));
        is_out = rw (full, get) (ground (arith, sum x, sound.spare_made x, sound.once x));
        fewer = λ a. rw (full, get) (omega (arith, sum a));
        kept = λ a. rw (full, get) (omega arith);
        same_weight = λ f nothing. rw (full, get) refl;
      }

  from_factory : s.spare.objects ≡ [] → Drawn
  unfolding get
  from_factory empty =
      let new = (s.spare.factory s.spare.state).0 in
      let made = al.object_log.made s.spare.state in
      let absent : weigh (is new) made ≡ 0 = rw sound.object_factory (al.unused s.spare.state) in
      let blank : s.holders new ≡ monostate = sound.untouched new absent in
      let grown : al.object_log.made (s.spare.factory s.spare.state).1 ≡ new ∷ made =
        rw sound.object_factory (al.object_log.grows s.spare.state) in
      record {
        made_once = λ a.
            rw (empty, get)
              (rw grown (elim (Bool-cases (new == a)) [
                | inl same ↦
                    (let here : new ≡ a = ground (arith, same) in
                      ground (arith, same, absent, ap (λ x. weigh (is x) made) here))
                | inr other ↦ ground (arith, other, sound.once a)
              ]));
        is_made = rw (empty, get) (rw grown (ground (arith, absent)));
        is_idle = rw (empty, get) (rw blank tt);
        is_out = rw (empty, get) refl;
        fewer = λ a. rw (empty, get) (omega arith);
        kept = λ a. rw (empty, get) (rw grown (omega arith));
        same_weight = λ f nothing. rw (empty, get) (rw grown (rw blank (omega (arith, nothing))));
      }

  pub draws : Drawn
  draws = elim (List-cases s.spare.objects) [
    | inl empty ↦ from_factory empty
    | inr (x, rest, full) ↦ from_pool x rest full
  ]
