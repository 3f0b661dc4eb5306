-- ===== src/Programs/Settings/Saved.antt =====
-- Each configuration is loaded back from the table that it was saved to.
use hnet.Prelude.{◌≡◌, refl, ◌∙◌, some}
use hnet.Five.Config.{Toml, IsToml, config_save, config_load, load_value, load_struct}
use hnet.Five.Config.RoundTrip.{transfer, load-save}
use hnet.Programs.Settings.{
  ServerConfig, Address, UdpClientConfig, ClientConfig, OldServerConfig, server_fields,
  address_fields, udp_client_fields, client_fields, old_server_fields,
}

module _ {t : Toml} (k : IsToml t) where
  transfer-server : (c c0 : ServerConfig) → transfer (server_fields t) c c0 ≡ some c
  unfolding load_value
  transfer-server c c0 = simp (k.int_back, k.string_back) refl

  transfer-address : (c c0 : Address) → transfer (address_fields t) c c0 ≡ some c
  unfolding load_value
  transfer-address c c0 = simp (k.int_back, k.string_back) refl

  address-back :
      (c c0 : Address)
      → config_load (address_fields t) (config_save (address_fields t) c t.empty) c0 ≡ some c
  address-back c c0 = load-save k (address_fields t) c c0 t.empty refl ∙ transfer-address c c0

  -- The address within a configuration, from the table within its table.
  load-address :
      {C : Type 0} (get : C → Address) (set : Address → C → C) (a : Address) (c : C)
      → load_struct
          (address_fields t)
          get
          set
          (some (t.of_table (config_save (address_fields t) a t.empty)))
          c
        ≡ some (set a c)
  unfolding load_struct
  load-address get set a c =
      rw (k.table_back (config_save (address_fields t) a t.empty), load_struct)
        (rw (address-back a (get c)) refl)

  transfer-udp_client : (c c0 : UdpClientConfig) → transfer (udp_client_fields t) c c0 ≡ some c
  unfolding load_value
  transfer-udp_client c c0 =
      simp (k.int_back, k.string_back)
        (rw
          (load-address (λ c'. c'.server) (λ v c'. record c' { server = v }) c.server
            (record c0 { data_to_send = c.data_to_send }))
          refl)

  transfer-client : (c c0 : ClientConfig) → transfer (client_fields t) c c0 ≡ some c
  unfolding load_value
  transfer-client c c0 =
      simp (k.int_back, k.string_back)
        (rw
          (load-address (λ c'. c'.server) (λ v c'. record c' { server = v }) c.server
            (record c0 { data_to_send = c.data_to_send }))
          refl)

  -- A configuration of any of the four programs that was saved to a table, whatever else the table
  -- held, is loaded back from it, whatever the fields were before; so is the address within it.
  pub config_load-config_save :
      (tbl : t.Table) (s s0 : ServerConfig) (o o0 : OldServerConfig) (u u0 : UdpClientConfig)
      (c c0 : ClientConfig)
      → (config_load (server_fields t) (config_save (server_fields t) s tbl) s0 ≡ some s)
        × (config_load (old_server_fields t) (config_save (old_server_fields t) o tbl) o0 ≡ some o)
        × (config_load (udp_client_fields t) (config_save (udp_client_fields t) u tbl) u0 ≡ some u)
        × (config_load (client_fields t) (config_save (client_fields t) c tbl) c0 ≡ some c)
  unfolding load_value
  config_load-config_save tbl s s0 o o0 u u0 c c0 = (
    load-save k (server_fields t) s s0 tbl refl ∙ transfer-server s s0,
    load-save k (old_server_fields t) o o0 tbl refl ∙ simp k.int_back refl,
    load-save k (udp_client_fields t) u u0 tbl refl ∙ transfer-udp_client u u0,
    load-save k (client_fields t) c c0 tbl refl ∙ transfer-client c c0,
  )
