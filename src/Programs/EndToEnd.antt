-- ===== src/Programs/EndToEnd.antt =====
-- The server's echo against the client's check.
use hnet.Prelude.{ℕ, ◌*◌, ◌<◌, ◌≡◌, refl, List, ◌∷◌, ◌++◌, some, length, arith, length-append, ◌∙◌}
use hnet.Prelude.Int.{ℤ, pos, ◌<ℤ◌}
use hnet.Prelude.Results.{ok}
use hnet.Prelude.Memory.{overwrite, write_at, take-overwrite, length-overwrite}
use hnet.Five.Time.{Instant, Duration, sub_instants}
use hnet.Ring2.Addr.{Addr}
use hnet.Ring2.Messages.{ReadView, WriteView}
use hnet.Programs.Server.{echo, buf_size}
use hnet.Programs.Server.Echo.{echo-ok}
use hnet.Programs.Client.{Client, Reply, client_step, data_expected}
use hnet.Programs.Client.Fiber.{same_bytes_refl}

-- The message as the server receives it into its buffer.
abbrev pub request : List ℕ → Addr → ReadView
request sent client = record { ret = pos (length sent); buf = sent; addr = client }

-- The client's round in which the server's answer comes back.
abbrev pub round_trip : ℤ → WriteView → Addr → Instant → Reply
round_trip send_res ww server now = record {
  send_res = send_res;
  result = record { ret = pos (length ww.buf); buf = ww.buf; addr = server };
  now = now;
}

-- A message that is not empty and takes less than half of the server's buffer goes there and back:
-- the server answers the client that sent it, and the client accepts the answer and records the time
-- since it sent the message.
pub client_step-echo :
    (sent buf : List ℕ) (client server : Addr) (c : Client) (send_res : ℤ) (now : Instant)
    (took : Duration)
    → 0 < length sent
    → length sent * 2 < buf_size
    → length buf ≡ buf_size
    → pos 0 <ℤ send_res
    → sub_instants now c.start ≡ some took
    → (ww : WriteView) × (buf' : List ℕ) × (echo (request sent client) (overwrite sent buf)
        ≡ ok (ww, buf'))
      × (ww.addr ≡ client)
      × (client_step (data_expected sent) c (round_trip send_res ww server now)
          ≡ ok (record c { start = now; timings = took ∷ c.timings }))
unfolding client_step
client_step-echo sent buf client server c send_res now took some_bytes small full sent_ok elapsed =
    (
      record { buf = sent ++ sent; addr = client },
      write_at (length sent) sent (overwrite sent buf),
      echo-ok (request sent client) (overwrite sent buf) (length-overwrite sent buf ∙ full)
          (take-overwrite sent buf (omega arith)) small,
      refl,
      ground (arith, same_bytes_refl (sent ++ sent), length-append sent sent),
    )
