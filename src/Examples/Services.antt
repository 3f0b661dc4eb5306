-- ===== src/Examples/Services.antt =====
-- The server and the client at small inputs.
use hnet.Prelude.{ℕ, ◌≡◌, refl, List, [], ◌∷◌, some, length, replicate, length-replicate}
use hnet.Prelude.Int.{pos, ◌-ℤ◌}
use hnet.Prelude.Results.{ok}
use hnet.Five.Time.{sub_instants}
use hnet.Ring2.Errors.{esqe_timeout}
use hnet.Ring2.Addr.{Addr, unspec, default_addr}
use hnet.Ring2.Messages.{ReadView}
use hnet.Programs.Server.{buf_size}
use hnet.Programs.Client.{Client, Reply, client_step, client_loop, data_expected}

abbrev peer : Addr
peer = default_addr unspec

-- A buffer whose length is known and whose 65000 bytes are not written out.
pub blank_buf : List ℕ
blank_buf = replicate buf_size 0

pub blank_buf-length : length blank_buf ≡ buf_size
unfolding blank_buf
blank_buf-length = length-replicate {A = ℕ} buf_size 0

-- Two requests and the end of the connection.
abbrev req : List ℕ → ReadView
req bytes = record { ret = pos (length bytes); buf = bytes; addr = peer }

-- A client that starts at 100, and two rounds of it.
abbrev client : Client
client = record { start = record { nanos = pos 100 }; timings = []; dead_packets = 0 }

abbrev reply_at : ℕ → Reply
reply_at t = record { send_res = pos 3; result = req (7 ∷ 7 ∷ []); now = record { nanos = pos t } }

abbrev timed_out : Reply
timed_out = record {
  send_res = pos 3;
  result = record { ret = esqe_timeout; buf = []; addr = peer };
  now = record { nanos = pos 180 };
}

abbrev client_after : Client
client_after = record {
  start = record { nanos = pos 180 };
  timings = record { nanos = pos 50 } ∷ [];
  dead_packets = 1;
}

abbrev client_alive : Client
client_alive = record {
  start = record { nanos = pos 170 };
  timings = record { nanos = pos 20 } ∷ record { nanos = pos 50 } ∷ [];
  dead_packets = 0;
}

one_dead :
    client_loop (data_expected (7 ∷ [])) client (reply_at 150 ∷ timed_out ∷ []) ≡ ok client_after
unfolding client_loop client_step sub_instants ◌-ℤ◌
one_dead = refl

none_dead :
    client_loop (data_expected (7 ∷ [])) client (reply_at 150 ∷ reply_at 170 ∷ []) ≡ ok client_alive
unfolding client_loop client_step sub_instants ◌-ℤ◌
none_dead = refl

elapsed : sub_instants (record { nanos = pos 150 }) client.start ≡ some (record { nanos = pos 50 })
unfolding sub_instants ◌-ℤ◌
elapsed = refl
