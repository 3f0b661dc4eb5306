-- ===== src/Programs/Client.antt =====
-- src/infallible_udp.cc: fibers that send a message, wait for its echo for a limited time, and
-- record how long it took.
pub mod Padding
pub mod Fiber
pub mod Fibers
pub mod Whole
use hnet.Prelude.{
  ◌^◌, ℕ, zero, suc, ◌+◌, Bool, true, false, ◌||◌, List, [], ◌∷◌, ◌++◌, Option, none, some, length,
  drop, ltb, ◌==◌, ◌&&◌, if◌then◌else◌,
}
use hnet.Prelude.Int.{ℤ, pos, ◌-ℤ◌, leb_ℤ, ◌==ℤ◌}
use hnet.Prelude.Results.{ok, err}
use hnet.Five.Time.{Instant, Duration, sub_instants}
use hnet.Ring2.Errors.{
  Outcome, bad_response, client_bad_sendmsg, client_bad_recvmsg, overflow, esqe_timeout, eintr,
}
use hnet.Ring2.Messages.{ReadView}

-- The bytes of two texts are the same.
abbrev pub same_bytes : List ℕ → List ℕ → Bool
same_bytes [] [] = true
same_bytes [] (y ∷ ys) = false
same_bytes (x ∷ xs) [] = false
same_bytes (x ∷ xs) (y ∷ ys) = (x == y) && same_bytes xs ys

-- The loop that repeats the configured text until it has `data_len` bytes, with fuel.
unfoldable pub pad : ℕ → List ℕ → ℕ → List ℕ → Option (List ℕ)
pad zero base data_len data_to_send = none
pad (suc fuel) base data_len data_to_send =
    let more = pad fuel base data_len (data_to_send ++ base) in
    if ltb (length data_to_send) data_len then more else some data_to_send

-- What a fiber holds in its loop; the timings and the count of dead packets are shared by all.
pub record Client : Type 0 where
  pub start : Instant
  pub timings : List Duration
  pub dead_packets : ℕ

-- One round as the fiber sees it: the results of its two calls, and the clock after them.
pub record Reply : Type 0 where
  pub send_res : ℤ
  pub result : ReadView
  pub now : Instant

-- `++dead_packets`, an `int`.
abbrev pub count_dead : ℕ → Outcome ℕ
count_dead n = if ltb (suc n) (2 ^ 31) then ok (suc n) else err overflow

-- The body of the loop. `timings` has the latest at its head.
unfoldable pub client_step : List ℕ → Client → Reply → Outcome Client
client_step expected c e =
    if leb_ℤ e.send_res (pos 0)
    then err (client_bad_sendmsg (pos 0 -ℤ e.send_res))
    else (if e.result.ret ==ℤ esqe_timeout || e.result.ret ==ℤ eintr
        then (elim (count_dead c.dead_packets) [
          | err x ↦ err x
          | ok dead ↦ ok (record c { start = e.now; dead_packets = dead })
        ])
        else (if leb_ℤ e.result.ret (pos 0)
            then err (client_bad_recvmsg (pos 0 -ℤ e.result.ret))
            else (if same_bytes e.result.buf expected
                then (elim (sub_instants e.now c.start) [
                  | none ↦ err overflow
                  | some took ↦ ok (record c { start = e.now; timings = took ∷ c.timings })
                ])
                else err bad_response)))

-- The loop over its rounds, `count / fibers` of them.
unfoldable pub client_loop : List ℕ → Client → List Reply → Outcome Client
client_loop expected c [] = ok c
client_loop expected c (e ∷ es) = elim (client_step expected c e) [
  | err x ↦ err x
  | ok c' ↦ client_loop expected c' es
]

-- `data_expected`: what was sent, twice over.
abbrev pub data_expected : List ℕ → List ℕ
data_expected sent = sent ++ sent

-- The first 1000 records are dropped when there are more. The list is in the order of recording.
unfoldable pub cut_warmup : List Duration → List Duration
cut_warmup timings = if ltb 1_000 (length timings) then drop 1_000 timings else timings
