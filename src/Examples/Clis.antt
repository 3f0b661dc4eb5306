-- ===== src/Examples/Clis.antt =====
-- A run of the client of src/cli.cc with two fibers of one round each.
use hnet.Prelude.{ℕ, List, [], ◌∷◌, ◌++◌, some, none, replicate}
use hnet.Prelude.Int.{pos}
use hnet.Five.Time.{Instant}
use hnet.Ring2.Addr.{Inet, Addr, unspec, default_addr}
use hnet.Ring2.Messages.{WriteView}
use hnet.Programs.Server.{buf_size}
use hnet.Programs.Settings.{ClientConfig, client_defaults}
use hnet.Programs.Client.{Reply}
use hnet.Programs.Cli.{doubled}
use hnet.Programs.EndToEnd.{round_trip}

abbrev config : ClientConfig
config = record client_defaults { data_to_send = 97 ∷ []; threads = pos 2; count = pos 1 }

abbrev inet : Inet
inet = record {
  pton4 = λ text. some (127 ∷ 0 ∷ 0 ∷ 1 ∷ []);
  pton6 = λ text. none;
  ntop4 = λ bytes. none;
  ntop6 = λ bytes. none;
  decimal = λ n. n ∷ [];
}

-- The message, whose 1024 bytes are not written out, and the buffer of the server.
message : List ℕ
message = doubled 10 (97 ∷ [])

blank : List ℕ
blank = replicate buf_size 0

abbrev peer : Addr
peer = default_addr unspec

abbrev answer : WriteView
answer = record { buf = message ++ message; addr = peer }

abbrev begun : ℕ → ℕ
begun thr = 10

abbrev at : ℕ → Instant
at t = record { nanos = pos t }

abbrev turns : List (ℕ × Reply)
turns =
    (1, round_trip (pos 2) answer peer (at 40)) ∷ (0, round_trip (pos 2) answer peer (at 60)) ∷ []
