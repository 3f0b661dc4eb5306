-- ===== src/Ring2/Sock/Lifetime.antt =====
-- Which descriptors a socket leaves open.
use hnet.Prelude.{ℕ, ◌≡◌, refl, subst, ◌∙◌, ◌⊎◌, inl, inr, true, false, List, ◌∷◌, arith}
use hnet.Prelude.Int.{ℤ, pos, leb_ℤ, ◌≤ℤ◌, ◌<ℤ◌}
use hnet.Prelude.Results.{ok, err}
use hnet.Ring2.Addr.{IpFamily}
use hnet.Ring2.Sock.{
  Proto, tcp, udp, Domain, SocketType, TcpOption, Sockets, socket_failed, setsockopt_failed, Socket,
  of_fd, set_options, domain_of, type_of, open_socket, close_socket,
}

-- What the system's manual says of descriptors: `socket` opens the one that it returns, `close`
-- closes it, and the options of a socket open and close nothing.
pub record IsTracked (os : Sockets) : Type 0 where
  pub opened : os.S → List ℤ
  pub at_socket :
      (d : Domain) (t : SocketType) (s : os.S)
      → pos 0 ≤ℤ (os.socket d t s).0
      → opened (os.socket d t s).1 ≡ (os.socket d t s).0 ∷ opened s
  pub at_failure :
      (d : Domain) (t : SocketType) (s : os.S)
      → (os.socket d t s).0 <ℤ pos 0
      → opened (os.socket d t s).1 ≡ opened s
  pub at_setsockopt :
      (fd : ℤ) (o : TcpOption) (val : ℕ) (s : os.S) → opened (os.setsockopt fd o val s).1 ≡ opened s
  pub at_close :
      (fd : ℤ) (fds : List ℤ) (s : os.S) → opened s ≡ fd ∷ fds → opened (os.close fd s) ≡ fds

module _ {os : Sockets} (k : IsTracked os) where
  opened-set_options :
      (proto : Proto) (fd : ℤ) (s : os.S) → k.opened (set_options os proto fd s).1 ≡ k.opened s
  unfolding set_options
  opened-set_options udp fd s = refl
  opened-set_options tcp fd s = ground (
    arith,
    k.at_setsockopt fd TcpOption.tcp_fastopen 1 s,
    k.at_setsockopt fd TcpOption.tcp_nodelay 1 (os.setsockopt fd TcpOption.tcp_fastopen 1 s).1,
  )

  result-set_options :
      (proto : Proto) (fd : ℤ) (s : os.S)
      → ((set_options os proto fd s).0 ≡ ok (of_fd fd))
        ⊎ ((set_options os proto fd s).0 ≡ err setsockopt_failed)
  unfolding set_options
  result-set_options udp fd s = inl refl
  result-set_options tcp fd s = ground arith

  leb_ℤ-cases : (a : ℤ) → (leb_ℤ (pos 0) a ≡ true) ⊎ ((leb_ℤ (pos 0) a ≡ false) × (a <ℤ pos 0))
  leb_ℤ-cases a = ground arith

  leb_ℤ-le : (a : ℤ) → leb_ℤ (pos 0) a ≡ true → pos 0 ≤ℤ a
  leb_ℤ-le a e = ground arith

  -- On a system that keeps to its manual, a socket that is made has opened one descriptor, and its destructor closes it. A failed one has
  -- opened none if `socket` failed; if an option failed, its descriptor stays open, and no object
  -- is left to close it.
  pub open_socket_lem :
      (family : IpFamily) (proto : Proto) (s : os.S)
      → let (made, s') = open_socket os family proto s in
        ((sock : Socket) × (made ≡ ok sock)
          × (k.opened s' ≡ sock.fd ∷ k.opened s)
          × (k.opened (close_socket os sock s') ≡ k.opened s))
        ⊎ ((made ≡ err socket_failed) × (k.opened s' ≡ k.opened s))
        ⊎ ((fd : ℤ) × (made ≡ err setsockopt_failed) × (k.opened s' ≡ fd ∷ k.opened s))
  unfolding open_socket close_socket
  open_socket_lem family proto s =
      let d = domain_of family in
      let t = type_of proto in
      let (fd, s') = os.socket d t s in
      elim (leb_ℤ-cases fd) [
        | inr negative ↦ inr (
            inl (ground (arith, negative), ground (arith, negative, k.at_failure d t s negative.1)))
        | inl positive ↦
            let left : k.opened (set_options os proto fd s').1 ≡ fd ∷ k.opened s =
              opened-set_options proto fd s' ∙ k.at_socket d t s (leb_ℤ-le fd positive) in
            elim (result-set_options proto fd s') [
              | inl made ↦ inl (
                of_fd fd,
                rw positive made,
                rw positive left,
                rw positive (k.at_close fd (k.opened s) _ left),
              )
              | inr failed ↦ inr (inr (fd, rw positive failed, rw positive left))
            ]
      ]

  -- A socket that was made is closed by its destructor.
  pub close_socket-open_socket :
      (family : IpFamily) (proto : Proto) (s : os.S) (sock : Socket)
      → (open_socket os family proto s).0 ≡ ok sock
      → k.opened (close_socket os sock (open_socket os family proto s).1) ≡ k.opened s
  close_socket-open_socket family proto s sock made = elim (open_socket_lem family proto s) [
    | inl (sock', made', left, closed) ↦
        let same : sock' ≡ sock = ground (arith, made, made') in
        subst (λ x. k.opened (close_socket os x (open_socket os family proto s).1) ≡ k.opened s)
          same closed
    | inr (inl (failed, left)) ↦ absurd (ground (arith, made, failed))
    | inr (inr (fd, failed, left)) ↦ absurd (ground (arith, made, failed))
  ]
