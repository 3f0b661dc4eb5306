-- ===== src/Programs/Server/Requests.antt =====
-- How a TCP connection is served.
use hnet.Prelude.{◌≡◌, ◌≢◌, ◌⊎◌, inl, inr, List, [], ◌∷◌, ◌++◌, map, arith}
use hnet.Prelude.Int.{ℤ, pos, ◌≤ℤ◌, ==ℤ→eq}
use hnet.Ring2.Errors.{econnreset}
use hnet.Ring2.Messages.{ReadView, WriteView}
use hnet.Programs.Server.{closed, reply_text, tcp_loop}

abbrev pub answer : ReadView × ℤ → WriteView
answer (req, sent) = record { buf = reply_text; addr = req.addr }

-- A request that is answered, and whose reply is sent.
abbrev pub IsServed : ReadView × ℤ → Type 0
IsServed (req, sent) = (req.ret ≢ econnreset) × (req.buf ≢ []) × (pos 0 ≤ℤ sent)

abbrev pub AllServed : List (ReadView × ℤ) → Type 0
AllServed [] = Unit {0}
AllServed (e ∷ es) = IsServed e × AllServed es

-- A reset, or a receive that brings no byte: the peer is gone, or the call failed.
abbrev pub IsLast : ReadView → Type 0
IsLast req = (req.ret ≡ econnreset) ⊎ (req.buf ≡ [])

-- Each request is answered by the one reply, in order and to its sender, up to the first reset or
-- empty receive, which closes the connection with no answer; what comes after it is not read.
pub tcp_loop_lem :
    (live rest : List (ReadView × ℤ)) (req : ReadView) (sent : ℤ)
    → AllServed live
    → IsLast req
    → tcp_loop (live ++ (req, sent) ∷ rest) ≡ (map answer live, closed)
unfolding tcp_loop
tcp_loop_lem [] rest req sent served (inl reset) = ground (arith, ==ℤ→eq req.ret econnreset)
tcp_loop_lem [] rest req sent served (inr empty) = ground arith
tcp_loop_lem ((q, x) ∷ live) rest req sent served last =
    ground (arith, ==ℤ→eq q.ret econnreset, tcp_loop_lem live rest req sent served.1 last)
