-- ===== src/Programs/Server/Start.antt =====
-- src/srv2.cc: what `ServerProgram::Run` sets up before its loops.
pub mod Descriptors
use hnet.Prelude.{ℕ, ◌%◌, ◌^◌, List, [], ◌∷◌, if◌then◌else◌}
use hnet.Prelude.Int.{ℤ, pos, ◌==ℤ◌}
use hnet.Prelude.Results.{Result, ok, err}
use hnet.Ring2.Addr.{Addr, IpFamily, v4, v6, ip4_any, ip6_any}
use hnet.Ring2.Sock.{Error, Socket, Sockets, tcp, udp, open_bound, listen_socket, close_socket}
use hnet.Programs.Settings.{ServerConfig, udp_text}
use hnet.Programs.Client.{same_bytes}
use hnet.Programs.Report.{to_u64}

abbrev pub tcp_text : List ℕ
tcp_text = b't' ∷ b'c' ∷ b'p' ∷ []

unfoldable pub sock_family : ServerConfig → IpFamily
sock_family config = if config.ipv ==ℤ pos 4 then v4 else v6

unfoldable pub bind_addr : ServerConfig → Addr
bind_addr config =
    let port = to_u64 config.port % 2 ^ 16 in
    if config.ipv ==ℤ pos 4 then ip4_any port else ip6_any port

-- What is served. In another mode than the two, `Run` ends at once.
pub data Service : Type 0 where
  tcp_service udp_service : Socket → Service
  no_service : Service

module _ (os : Sockets) where
  unfoldable pub start_tcp : ServerConfig → os.S → Result Error Service × os.S
  start_tcp config s =
      let (made, s') = open_bound os (sock_family config) tcp (bind_addr config) s in
      elim made [
        | err x ↦ (err x, s')
        | ok sock ↦
            let (listens, s'') = listen_socket os sock (pos 1_024) s' in
            elim listens [
              | ok u ↦ (ok (tcp_service sock), s'')
              | err x ↦ (err x, close_socket os sock s'')
            ]
      ]

  unfoldable pub start_udp : ServerConfig → os.S → Result Error Service × os.S
  start_udp config s =
      let (made, s') = open_bound os (sock_family config) udp (bind_addr config) s in
      elim made [ err x ↦ (err x, s') | ok sock ↦ (ok (udp_service sock), s') ]

  unfoldable pub start_server : ServerConfig → os.S → Result Error Service × os.S
  start_server config s =
      if same_bytes config.mode tcp_text
      then start_tcp config s
      else (if same_bytes config.mode udp_text then start_udp config s else (ok no_service, s))
