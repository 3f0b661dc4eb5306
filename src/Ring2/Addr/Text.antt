-- ===== src/Ring2/Addr/Text.antt =====
-- Addresses and their text.
use hnet.Prelude.{ℕ, ◌<◌, ◌≡◌, ◌≢◌, List, [], ◌∷◌, ◌++◌, some, arith}
use hnet.Prelude.Results.{ok, ◌>>=◌}
use hnet.Ring2.Addr.{v4, v6, Inet, htons, from_parts, to_string, ip4_local}

htons-htons : (p : ℕ) → p < 65_536 → htons (htons p) ≡ p
unfolding htons
htons-htons p h = omega arith

-- An address that is made from a text prints as the C library prints the bytes that the text stands
-- for, with the port that was given, if that is a 16-bit number. An IPv6 address is in brackets.
pub to_string-from_parts :
    (i : Inet) (text text6 canonical canonical6 bytes bytes6 : List ℕ) (port : ℕ)
    → port < 65_536
    → i.pton4 text ≡ some bytes
    → i.ntop4 bytes ≡ some canonical
    → i.pton6 text6 ≡ some bytes6
    → i.ntop6 bytes6 ≡ some canonical6
    → ((from_parts i text port v4 >>= to_string i) ≡ ok (canonical ++ b':' ∷ i.decimal port))
      × ((from_parts i text6 port v6 >>= to_string i)
          ≡ ok (b'[' ∷ (canonical6 ++ b']' ∷ b':' ∷ i.decimal port)))
unfolding from_parts to_string
to_string-from_parts i text text6 canonical canonical6 bytes bytes6 port small read printed read6
      printed6 =
    (
      rw (read, from_parts) (rw (printed, to_string) (rw (htons-htons port small))),
      rw (read6, from_parts) (rw (printed6, to_string) (rw (htons-htons port small))),
    )

-- The address of `ip4_local` is the one that the text 1.0.0.127 stands for, at every port, and not
-- the loopback address: `INADDR_LOOPBACK` is stored without `htonl`.
pub ip4_local-is_not_loopback :
    (i : Inet) (loopback reversed : List ℕ) (port : ℕ)
    → i.pton4 loopback ≡ some (127 ∷ 0 ∷ 0 ∷ 1 ∷ [])
    → i.pton4 reversed ≡ some (1 ∷ 0 ∷ 0 ∷ 127 ∷ [])
    → (from_parts i reversed port v4 ≡ ok (ip4_local port))
      × (from_parts i loopback port v4 ≢ ok (ip4_local port))
unfolding from_parts ip4_local
ip4_local-is_not_loopback i loopback reversed port lo rev =
    (rw (rev, from_parts), rw (lo, from_parts) (λ e. ground arith))
