-- ===== src/Examples/Clients.antt =====
-- A run of the client of src/infallible_udp.cc with two fibers of two rounds each, one of which is
-- lost.
use hnet.Prelude.{ℕ, ◌+◌, List, [], ◌∷◌, ◌++◌, none, some, replicate}
use hnet.Prelude.Int.{pos}
use hnet.Five.Time.{Instant}
use hnet.Ring2.Addr.{Inet, Addr, unspec, default_addr}
use hnet.Ring2.Errors.{esqe_timeout}
use hnet.Ring2.Messages.{ReadView, WriteView}
use hnet.Programs.Server.{buf_size}
use hnet.Programs.Settings.{UdpClientConfig, udp_client_defaults}
use hnet.Programs.Client.{Reply}
use hnet.Ring2.Sock.{Socket}
use hnet.Programs.Client.Whole.Turns.{Turns}
use hnet.Programs.Client.Whole.Answered.{message}
use hnet.Programs.EndToEnd.{round_trip}

-- The text is "a", and a number is its one digit.
abbrev config : UdpClientConfig
config = record udp_client_defaults { data_to_send = 97 ∷ []; count = pos 5; fibers = pos 2 }

abbrev decimal : ℕ → List ℕ
decimal n = (48 + n) ∷ []

abbrev inet : Inet
inet = record {
  pton4 = λ text. some (127 ∷ 0 ∷ 0 ∷ 1 ∷ []);
  pton6 = λ text. none;
  ntop4 = λ bytes. none;
  ntop6 = λ bytes. none;
  decimal = decimal;
}

abbrev sent : ℕ → List ℕ
sent thr = message config ++ decimal thr

-- A buffer whose 65000 bytes are not written out.
blank : List ℕ
blank = replicate buf_size 0

abbrev peer : Addr
peer = default_addr unspec

abbrev answer : ℕ → WriteView
answer thr = record { buf = sent thr ++ sent thr; addr = peer }

abbrev begun : ℕ → ℕ
begun thr = 10

abbrev at : ℕ → Instant
at t = record { nanos = pos t }

abbrev late : ReadView
late = record { ret = esqe_timeout; buf = []; addr = peer }

abbrev heard : ℕ → ℕ → Reply
heard thr t = round_trip (pos 2) (answer thr) peer (at t)

abbrev unheard : ℕ → Reply
unheard t = record { send_res = pos 2; result = late; now = at t }

abbrev turns : List (ℕ × Reply)
turns = (0, heard 0 30) ∷ (1, unheard 50) ∷ (1, heard 1 60) ∷ (0, heard 0 90) ∷ []

abbrev two_sockets : List Socket
two_sockets = record { fd = pos 3 } ∷ record { fd = pos 4 } ∷ []
