-- ===== src/Server/Serving.antt =====
-- internal/server/server.go, `startNetworkServices`: when the network services start, and what they keep.
use syncmesh.Common.{
  ◌≡◌, ◌⊎◌, refl, ℤ, inl, inr, String, Bool, true, false, none, some, List, [], ◌∷◌, arith,
  Bool-cases,
}
use syncmesh.Config.{SecurityConfig}
use syncmesh.Grpc.Serving.{
  register_cluster_server, register_file_sync_server, TlsConfig, GrpcServer, CreateError,
  load_tls_config, new_grpc_server,
}
use syncmesh.Server.{Server, ServerError}
use syncmesh.Server.Running.{start_network_services}

-- The key pair of the gRPC server can be loaded, if it is asked for.
abbrev pub CanServe : (String → String → Bool) → SecurityConfig → Type 0
CanServe loads security =
    (security.tls_enabled ≡ false) ⊎ (loads security.tls_cert_file security.tls_key_file ≡ true)

new_grpc_server-cases :
    (loads : String → String → Bool) (security : SecurityConfig)
    → CanServe loads security × ((g : GrpcServer) × (new_grpc_server loads security ≡ inr g))
      ⊎ (¬ CanServe loads security) × ((e : CreateError) × (new_grpc_server loads security ≡ inl e))
unfolding new_grpc_server load_tls_config
new_grpc_server-cases loads security = elim (Bool-cases security.tls_enabled) [
  | inr off ↦ inl (inl off, (registered [], rw off refl))
  | inl on ↦ elim (Bool-cases (loads security.tls_cert_file security.tls_key_file)) [
    | inl ok ↦ inl (inr ok, (registered (tls ∷ []), rw (on, ok) refl))
    | inr bad ↦ inr (λ can. ground arith, (CreateError.key_pair_not_loaded, rw (on, bad) refl))
  ]
]
  where
    registered : List TlsConfig → GrpcServer
    registered credentials =
        register_cluster_server
          (register_file_sync_server (record { credentials = credentials; services = [] }))

    tls : TlsConfig
    tls = record {
      cert_file = security.tls_cert_file;
      key_file = security.tls_key_file;
      requires_client_cert = true;
    }

module _ {Fs M : Type 0} (print : ℤ → String) (loads : String → String → Bool) where
  -- The services start, or there is an error; the node stays as it is.
  pub start_network_services-cases :
      (s : Server Fs M)
      → let started = start_network_services print loads s in
        (started.0.node ≡ s.node)
        × (CanServe loads s.config.security × (started.1 ≡ none)
            ⊎ (¬ CanServe loads s.config.security) × ((e : ServerError) × (started.1 ≡ some e)))
  unfolding start_network_services
  start_network_services-cases s = elim (new_grpc_server-cases loads s.config.security) [
    | inl (can, (g, made)) ↦
        (rw (made, start_network_services) refl, inl (can, rw (made, start_network_services) refl))
    | inr (cannot, (e, failed)) ↦ (
      rw (failed, start_network_services) refl,
      inr (cannot, (ServerError.grpc_failed e, rw (failed, start_network_services) refl)),
    )
  ]

  pub start_network_services-keeps :
      (s : Server Fs M)
      → let m = (start_network_services print loads s).0 in
        (m.monitoring ≡ s.monitoring) × (m.config ≡ s.config)
  unfolding start_network_services
  start_network_services-keeps s = elim (new_grpc_server-cases loads s.config.security) [
    | inl (_, (g, made)) ↦
        (rw (made, start_network_services) refl, rw (made, start_network_services) refl)
    | inr (_, (e, failed)) ↦
        (rw (failed, start_network_services) refl, rw (failed, start_network_services) refl)
  ]
