-- ===== src/Netring/Executor/Owners/Weights.antt =====
-- Sums over lists and pools, and what is true after code that may fail.
use hnet.Prelude.{
  is, ℕ, ◌+◌, ◌≡◌, ◌≢◌, refl, List, [], ◌∷◌, ◌++◌, Option, none, some, List-cases, Bool-cases, inl,
  inr, ◌==◌, arith,
}
use hnet.Prelude.Results.{After}
use hnet.Five.ObjectPool.{ObjectPoolLite, get}
use hnet.Netring.Executor.{Holder, store, Fault, need}
use hnet.Netring.Executor.Copies.{store_self, store_ne}

abbrev pub owns : ℕ → Option ℕ → ℕ
owns b none = 0
owns b (some a) = is b a

abbrev pub weigh {ℓ} : {A : Type ℓ} → (A → ℕ) → List A → ℕ
weigh f [] = 0
weigh f (x ∷ xs) = f x + weigh f xs

pub weigh-append {ℓ} :
    {A : Type ℓ} (f : A → ℕ) (xs ys : List A) → weigh f (xs ++ ys) ≡ weigh f xs + weigh f ys
weigh-append f [] ys = omega arith
weigh-append f (x ∷ xs) ys = omega (arith, weigh-append f xs ys)

-- An object that is not among those that are weighed may change.
weigh-store_ne :
    (f : Holder → ℕ) (at : ℕ) (x : Holder) (holders : ℕ → Holder) (ats : List ℕ)
    → weigh (is at) ats ≡ 0
    → weigh (λ a. f (store at x holders a)) ats ≡ weigh (λ a. f (holders a)) ats
weigh-store_ne f at x holders [] none_there = refl
weigh-store_ne f at x holders (a ∷ ats) none_there =
    let apart : a ≢ at = λ e. ground arith in
    ground (arith, weigh-store_ne f at x holders ats, store_ne at a x holders apart)

-- One that is there once takes the weight of its new content for that of its old one.
pub weigh-store :
    (f : Holder → ℕ) (at : ℕ) (x : Holder) (holders : ℕ → Holder) (ats : List ℕ)
    → weigh (is at) ats ≡ 1
    → weigh (λ a. f (store at x holders a)) ats + f (holders at)
      ≡ weigh (λ a. f (holders a)) ats + f x
weigh-store f at x holders [] one = absurd (omega arith)
weigh-store f at x holders (a ∷ ats) one = elim (Bool-cases (a == at)) [
  | inr other ↦
      let apart : a ≢ at = λ e. ground (arith, other) in
      ground (arith, other, weigh-store f at x holders ats, store_ne at a x holders apart)
  | inl same ↦
      let here : a ≡ at = ground (arith, same) in
      ground (arith, here, weigh-store_ne f at x holders ats, store_self at x holders)
]

-- What a pool gives out was in it, or is allocated.
pub get-weigh :
    {A : Type 0} (f : A → ℕ) (log : ℕ → ℕ) (p : ObjectPoolLite ℕ A)
    → ((s : ℕ) → log (p.factory s).1 ≡ f (p.factory s).0 + log s)
    → f (get p).0 + weigh f (get p).1.objects + log p.state
      ≡ weigh f p.objects + log (get p).1.state
unfolding get
get-weigh f log p grows = elim (List-cases p.objects) [
  | inl empty ↦ rw (empty, get) (ground (arith, grows p.state))
  | inr (x, rest, full) ↦ rw (full, get) (ground arith)
]

pub get-factory : {A : Type 0} (p : ObjectPoolLite ℕ A) → (get p).1.factory ≡ p.factory
unfolding get
get-factory p = elim (List-cases p.objects) [
  | inl empty ↦ rw (empty, get) refl
  | inr (x, rest, full) ↦ rw (full, get) refl
]

pub After-need : {A : Type 0} (e : Fault) (o : Option A) → After (λ a. o ≡ some a) (need e o)
After-need e none = tt
After-need e (some a) = refl

-- A property of the new content, and of the others, is one of all.
pub store-all {ℓ} :
    (P : Holder → Type ℓ) (at : ℕ) (x : Holder) (holders : ℕ → Holder) (a : ℕ)
    → P x
    → (a ≢ at → P (holders a))
    → P (store at x holders a)
store-all P at x holders a new old = elim (Bool-cases (a == at)) [
  | inl same ↦
      let here : a ≡ at = ground (arith, same) in rw here (rw (store_self at x holders) new)
  | inr other ↦
      let apart : a ≢ at = λ e. ground (arith, other) in
      rw (store_ne at a x holders apart) (old apart)
]
