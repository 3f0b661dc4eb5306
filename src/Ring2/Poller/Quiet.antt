-- ===== src/Ring2/Poller/Quiet.antt =====
-- Completions of other fibers: what they leave alone.
use hnet.Prelude.{
  ℕ, ◌≡◌, refl, List, [], ◌∷◌, Option, some, arith, ◌≢◌, inl, inr, Option-cases, ◌∙◌,
}
use hnet.Prelude.Results.{ok, Result-cases}
use hnet.Ring2.Kernel.{UsefulCqe}
use hnet.Ring2.Poller.Setters.{Store, update, update_ne, wakes, dispatch}

-- A completion changes no setter but its own.
pub dispatch_ne :
    (c : UsefulCqe) (h h' : Store) (fiber : Option ℕ) (a : ℕ)
    → a ≢ c.user_data
    → dispatch c h ≡ ok (fiber, h')
    → h' a ≡ h a
unfolding dispatch
dispatch_ne c h h' fiber a apart e = elim (Option-cases (h c.user_data)) [
  | inl dangling ↦ ground (arith, dangling)
  | inr (s, live) ↦
      let g = update h c.user_data (record s { res = c.res }) in
      elim (Result-cases (wakes s.should_wake g)) [
        | inr (x, failed) ↦ ground (arith, live, failed)
        | inl (w, woken) ↦
            ground (arith, live, woken, update_ne h c.user_data a (record s { res = c.res }))
      ]
]

-- The poller goes from the first store to the last by completions of setters that are not mine, and
-- they do not wake my fiber.
pub data Quiet (fiber : ℕ) (IsMine : ℕ → Type 0) : Store → List UsefulCqe → Store → Type 0 where
  still : {h : Store} → Quiet fiber IsMine h [] h
  other :
      {h h' h'' : Store} {c : UsefulCqe} {cs : List UsefulCqe} (woken : Option ℕ)
      → dispatch c h ≡ ok (woken, h')
      → ¬ IsMine c.user_data
      → woken ≢ some fiber
      → Quiet fiber IsMine h' cs h''
      → Quiet fiber IsMine h (c ∷ cs) h''

pub Quiet-keeps :
    {fiber : ℕ} {IsMine : ℕ → Type 0} {h h' : Store} {cs : List UsefulCqe} (a : ℕ)
    → IsMine a
    → Quiet fiber IsMine h cs h'
    → h' a ≡ h a
Quiet-keeps a mine still = refl
Quiet-keeps {IsMine} {h} a mine (other {h' = g} {c = c} woken e foreign asleep rest) =
    Quiet-keeps a mine rest ∙ dispatch_ne c h g woken a (λ same. foreign (rw same at mine)) e
