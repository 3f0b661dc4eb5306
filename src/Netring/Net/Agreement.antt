-- ===== src/Netring/Net/Agreement.antt =====
-- What netring's addresses and sockets have in common with those of ring2, and how they print.
use hnet.Prelude.{
  ℕ, ◌≡◌, refl, List, ◌++◌, length, replicate, take, take-append, append_assoc, ap, subst, ◌∙◌,
  arith,
}
use hnet.Ring2.Addr.{Addr, v6, Inet, ip6_any, ip6_local, from_parts, af_inet6, from_addr_in6}
use hnet.Ring2.Sock.{Sockets, Socket, udp, open_socket, bind_socket, close_socket}
use hnet.Netring.Request.{SockAddr6}
use hnet.Netring.Net.{of_sockaddr6, any6, local6, parse6, format6, make_udp, bind_udp, close_udp}

-- Netring's addresses are the IPv6 addresses of ring2, and its socket is ring2's for IPv6 and UDP:
-- the same calls of the system with the same results.
pub net_agrees :
    (i : Inet) (os : Sockets) (a : SockAddr6) (text : List ℕ) (port : ℕ) (sock : Socket)
    (addr : Addr) (s : os.S)
    → (of_sockaddr6 a
        ≡ from_addr_in6 (record {
          sin6_family = af_inet6;
          sin6_port = a.sin6_port;
          sin6_flowinfo = replicate 4 0;
          sin6_addr = a.sin6_addr;
        }))
      × (any6 port ≡ ip6_any port)
      × (local6 port ≡ ip6_local port)
      × (parse6 i text port ≡ from_parts i text port v6)
      × (make_udp os s ≡ open_socket os v6 udp s)
      × (bind_udp os sock addr s ≡ bind_socket os sock addr s)
      × (close_udp os sock s ≡ close_socket os sock s)
unfolding of_sockaddr6 from_addr_in6 any6 ip6_any local6 ip6_local parse6 from_parts make_udp
    open_socket bind_udp bind_socket close_udp close_socket
net_agrees i os a text port sock addr s = (refl, refl, refl, ground arith, ground arith, refl, refl)

first_half : (half rest end : List ℕ) → length half ≡ 8 → take 8 ((half ++ rest) ++ end) ≡ half
first_half half rest end h =
    ap (λ bytes. take 8 bytes) (append_assoc half rest end)
    ∙ subst (λ n. take n (half ++ (rest ++ end)) ≡ half) h (take-append half (rest ++ end))

-- The formatter shows `inet_ntop` the start of the structure and not the address in it: addresses
-- with the same port and the same first half print alike, as the loopback address and the one of any
-- host do, whatever the C library prints.
pub format6-ignores :
    (i : Inet) (half rest rest' : List ℕ) (port : ℕ)
    → length half ≡ 8
    → format6 i (record { sin6_port = port; sin6_addr = half ++ rest })
      ≡ format6 i (record { sin6_port = port; sin6_addr = half ++ rest' })
unfolding format6
format6-ignores i half rest rest' port h =
    rw (first_half half rest (replicate 4 0) h, first_half half rest' (replicate 4 0) h) refl
