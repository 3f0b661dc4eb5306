-- ===== src/Programs/Client/Padding.antt =====
-- When the message is long enough, and when it never is.
use hnet.Prelude.{
  ℕ, zero, suc, ◌+◌, ◌<◌, ◌≤◌, ◌≡◌, refl, ◌⊎◌, inl, inr, List, [], ◌++◌, append_assoc, append-nil,
  none, some, length, length-append, ap, arith, dec_lt,
}
use hnet.Programs.Client.{pad}

abbrev pub copies : ℕ → List ℕ → List ℕ
copies zero base = []
copies (suc k) base = base ++ copies k base

-- From a text that is not empty the loop ends, once the fuel exceeds the missing bytes: it appends
-- whole copies of the text, as few as it takes.
pub pad_lem :
    (fuel : ℕ) (base text : List ℕ) (data_len : ℕ)
    → 0 < length base
    → data_len < fuel + length text
    → 0 < fuel
    → (k : ℕ) × (pad fuel base data_len text ≡ some (text ++ copies k base))
      × (data_len ≤ length (text ++ copies k base))
      × ((k ≡ 0) ⊎ (length (text ++ copies k base) < data_len + length base))
unfolding pad
pad_lem zero base text data_len b h f = absurd (omega arith)
pad_lem (suc fuel) base text data_len b h f = elim (dec_lt (length text) data_len) [
  | no enough ↦ (0, ground (arith, append-nil text), ground (arith, append-nil text), inl refl)
  | yes short ↦
      let (k, e, long, few) =
        pad_lem fuel base (text ++ base) data_len b (omega (arith, length-append text base))
          (omega (arith)) in
      let regroup : (text ++ base) ++ copies k base ≡ text ++ copies (suc k) base =
        append_assoc text base (copies k base) in
      (
        suc k,
        ground (arith, e, regroup),
        rw regroup at long,
        inr (elim few [
          | inl once ↦ omega (
            arith,
            ap (λ (j : ℕ). length (copies j base)) once,
            length-append text (base ++ copies k base),
            length-append base (copies k base),
          )
          | inr f ↦ omega (arith, f, ap length regroup)
        ]),
      )
]

-- An empty text is never padded to a positive length: the loop does not end, at any fuel.
pub pad-empty : (fuel data_len : ℕ) → 0 < data_len → pad fuel [] data_len [] ≡ none
unfolding pad
pad-empty zero data_len h = refl
pad-empty (suc fuel) data_len h = ground (arith, pad-empty fuel data_len h)
