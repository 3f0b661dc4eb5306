-- ===== src/Programs/Server/Start/Descriptors.antt =====
-- Which descriptors the server has open when it starts to serve, or fails to.
use hnet.Prelude.{◌≢◌, ℕ, List, ◌≡◌, ◌⊎◌, ◌∷◌}
use hnet.Prelude.Int.{ℤ}
use hnet.Prelude.Results.{Result, ok, err}
use hnet.Ring2.Sock.{Error, setsockopt_failed, Socket, Sockets}
use hnet.Ring2.Sock.Lifetime.{IsTracked}
use hnet.Programs.Settings.{udp_text}
use hnet.Programs.Server.Start.{Service, tcp_service, udp_service, no_service, tcp_text}

-- `listen` opens and closes nothing.
abbrev pub ListenKeeps : {os : Sockets} → IsTracked os → Type 0
ListenKeeps {os} k = (fd n : ℤ) (s : os.S) → k.opened (os.listen fd n s).1 ≡ k.opened s

-- A socket is open and is served as TCP, or the start throws with nothing opened, or an option of the
-- socket failed, which leaves one descriptor open.
abbrev pub StartsTcp : {os : Sockets} → IsTracked os → os.S → Result Error Service × os.S → Type 0
StartsTcp k s (made, s') =
    ((sock : Socket) × (made ≡ ok (tcp_service sock)) × (k.opened s' ≡ sock.fd ∷ k.opened s))
    ⊎ ((x : Error) × (made ≡ err x) × (k.opened s' ≡ k.opened s))
    ⊎ ((fd : ℤ) × (made ≡ err setsockopt_failed) × (k.opened s' ≡ fd ∷ k.opened s))

-- A socket is open and is served as UDP, or the start throws with nothing opened.
abbrev pub StartsUdp : {os : Sockets} → IsTracked os → os.S → Result Error Service × os.S → Type 0
StartsUdp k s (made, s') =
    ((sock : Socket) × (made ≡ ok (udp_service sock)) × (k.opened s' ≡ sock.fd ∷ k.opened s))
    ⊎ ((x : Error) × (made ≡ err x) × (k.opened s' ≡ k.opened s))

-- What the configured mode decides.
abbrev pub Starts :
    {os : Sockets} → IsTracked os → List ℕ → os.S → Result Error Service × os.S → Type 0
Starts k mode s (made, s') =
    ((mode ≡ tcp_text) × StartsTcp k s (made, s'))
    ⊎ ((mode ≡ udp_text) × StartsUdp k s (made, s'))
    ⊎ ((mode ≢ tcp_text) × (mode ≢ udp_text) × (made ≡ ok no_service) × (s' ≡ s))
