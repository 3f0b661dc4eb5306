-- ===== src/Programs/Settings.antt =====
-- The configurations of the programs: `ServerConfig` of src/srv2.cc and of src/srv.cc, `ClientConfig`
-- and `Address` of src/infallible_udp.cc and of src/cli.cc.
pub mod Saved
use hnet.Prelude.{ℕ, ◌-◌, ◌^◌, List, [], ◌∷◌}
use hnet.Prelude.Int.{ℤ, pos}
use hnet.Five.Config.{Toml, Field, string_field, int_field, struct_field}

-- "udp", "ninebytes" and "127.0.0.1".
abbrev pub udp_text : List ℕ
udp_text = b'u' ∷ b'd' ∷ b'p' ∷ []

abbrev pub ninebytes : List ℕ
ninebytes = b'n' ∷ b'i' ∷ b'n' ∷ b'e' ∷ b'b' ∷ b'y' ∷ b't' ∷ b'e' ∷ b's' ∷ []

abbrev pub localhost : List ℕ
localhost = b'1' ∷ b'2' ∷ b'7' ∷ b'.' ∷ b'0' ∷ b'.' ∷ b'0' ∷ b'.' ∷ b'1' ∷ []

-- `(u32) -1`.
abbrev pub unset_cpu : ℤ
unset_cpu = pos (2 ^ 32 - 1)

pub record ServerConfig : Type 0 where
  pub port : ℤ
  pub ring_entries : ℤ
  pub mode : List ℕ
  pub ipv : ℤ
  pub fibers : ℤ
  pub kernel_cpu : ℤ
  pub app_aff : ℤ
  pub busypoll : ℤ

abbrev pub server_defaults : ServerConfig
server_defaults = record {
  port = pos 6_667;
  ring_entries = pos 8;
  mode = udp_text;
  ipv = pos 4;
  fibers = pos 1;
  kernel_cpu = unset_cpu;
  app_aff = unset_cpu;
  busypoll = pos 1_000_000;
}

pub record Address : Type 0 where
  pub host : List ℕ
  pub port : ℤ

-- Of src/infallible_udp.cc.
pub record UdpClientConfig : Type 0 where
  pub data_to_send : List ℕ
  pub port : ℤ
  pub server : Address
  pub count : ℤ
  pub fibers : ℤ
  pub ring_entries : ℤ
  pub kernel_cpu : ℤ
  pub app_aff : ℤ
  pub data_len : ℤ
  pub dead_packet_us : ℤ

abbrev pub udp_client_defaults : UdpClientConfig
udp_client_defaults = record {
  data_to_send = ninebytes;
  port = pos 6_668;
  server = record { host = localhost; port = pos 6_667 };
  count = pos 3;
  fibers = pos 1;
  ring_entries = pos 8;
  kernel_cpu = unset_cpu;
  app_aff = unset_cpu;
  data_len = pos 1;
  dead_packet_us = pos 1_000;
}

-- Of src/cli.cc.
pub record ClientConfig : Type 0 where
  pub data_to_send : List ℕ
  pub port : ℤ
  pub server : Address
  pub count : ℤ
  pub threads : ℤ
  pub ring_entries : ℤ

abbrev pub client_defaults : ClientConfig
client_defaults = record {
  data_to_send = ninebytes;
  port = pos 6_667;
  server = record { host = localhost; port = pos 6_667 };
  count = pos 3;
  threads = pos 1;
  ring_entries = pos 8;
}

-- Of src/srv.cc.
pub record OldServerConfig : Type 0 where
  pub port : ℤ

abbrev pub old_server_defaults : OldServerConfig
old_server_defaults = record { port = pos 6_666 }

module _ (t : Toml) where
  abbrev pub server_fields : List (Field t ServerConfig)
  server_fields =
      int_field "port" (λ c. c.port) (λ v c. record c { port = v })
      ∷ int_field "ring_entries" (λ c. c.ring_entries) (λ v c. record c { ring_entries = v })
      ∷ string_field "mode" (λ c. c.mode) (λ v c. record c { mode = v })
      ∷ int_field "ipv" (λ c. c.ipv) (λ v c. record c { ipv = v })
      ∷ int_field "fibers" (λ c. c.fibers) (λ v c. record c { fibers = v })
      ∷ int_field "kernel_cpu" (λ c. c.kernel_cpu) (λ v c. record c { kernel_cpu = v })
      ∷ int_field "app_aff" (λ c. c.app_aff) (λ v c. record c { app_aff = v })
      ∷ int_field "busypoll" (λ c. c.busypoll) (λ v c. record c { busypoll = v })
      ∷ []

  abbrev pub address_fields : List (Field t Address)
  address_fields =
      string_field "host" (λ c. c.host) (λ v c. record c { host = v })
      ∷ int_field "port" (λ c. c.port) (λ v c. record c { port = v })
      ∷ []

  abbrev pub udp_client_fields : List (Field t UdpClientConfig)
  udp_client_fields =
      string_field "data_to_send" (λ c. c.data_to_send) (λ v c. record c { data_to_send = v })
      ∷ struct_field "server" address_fields (λ c. c.server) (λ v c. record c { server = v })
      ∷ int_field "port" (λ c. c.port) (λ v c. record c { port = v })
      ∷ int_field "count" (λ c. c.count) (λ v c. record c { count = v })
      ∷ int_field "fibers" (λ c. c.fibers) (λ v c. record c { fibers = v })
      ∷ int_field "ring_entries" (λ c. c.ring_entries) (λ v c. record c { ring_entries = v })
      ∷ int_field "kernel_cpu" (λ c. c.kernel_cpu) (λ v c. record c { kernel_cpu = v })
      ∷ int_field "app_aff" (λ c. c.app_aff) (λ v c. record c { app_aff = v })
      ∷ int_field "data_len" (λ c. c.data_len) (λ v c. record c { data_len = v })
      ∷ int_field "dead_packet_us" (λ c. c.dead_packet_us) (λ v c. record c { dead_packet_us = v })
      ∷ []

  abbrev pub client_fields : List (Field t ClientConfig)
  client_fields =
      string_field "data_to_send" (λ c. c.data_to_send) (λ v c. record c { data_to_send = v })
      ∷ struct_field "server" address_fields (λ c. c.server) (λ v c. record c { server = v })
      ∷ int_field "port" (λ c. c.port) (λ v c. record c { port = v })
      ∷ int_field "count" (λ c. c.count) (λ v c. record c { count = v })
      ∷ int_field "threads" (λ c. c.threads) (λ v c. record c { threads = v })
      ∷ int_field "ring_entries" (λ c. c.ring_entries) (λ v c. record c { ring_entries = v })
      ∷ []

  abbrev pub old_server_fields : List (Field t OldServerConfig)
  old_server_fields = int_field "port" (λ c. c.port) (λ v c. record c { port = v }) ∷ []
