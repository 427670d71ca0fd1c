-- ===== src/Grpc/Serving.antt =====
-- pkg/grpc/server.go, `NewServer`, and the registration functions of pkg/proto/proto.go.
use syncmesh.Common.{◌≡◌, ◌∷◌, arith, String, Bool, true, List, [], ◌⊎◌, inl, inr, if◌then◌else◌}
use syncmesh.Config.{SecurityConfig}

pub record TlsConfig : Type 0 where
  pub cert_file : String
  pub key_file : String
  pub requires_client_cert : Bool

-- The gRPC server: its credentials, and the names of the services that it serves.
pub record GrpcServer : Type 0 where
  pub credentials : List TlsConfig
  pub services : List String

pub data CreateError : Type 0 where
  key_pair_not_loaded : CreateError

-- `loadTLSConfig`; `loads` says whether LoadX509KeyPair succeeds on two files.
unfoldable pub load_tls_config : (String → String → Bool) → SecurityConfig → CreateError ⊎ TlsConfig
load_tls_config loads security =
    if loads security.tls_cert_file security.tls_key_file
    then inr (record {
      cert_file = security.tls_cert_file;
      key_file = security.tls_key_file;
      requires_client_cert = true;
    })
    else inl CreateError.key_pair_not_loaded

-- `RegisterFileSyncServer` and `RegisterClusterServer`, whose bodies are empty.
unfoldable pub register_file_sync_server : GrpcServer → GrpcServer
register_file_sync_server s = s

unfoldable pub register_cluster_server : GrpcServer → GrpcServer
register_cluster_server s = s

unfoldable pub new_grpc_server :
    (String → String → Bool) → SecurityConfig → CreateError ⊎ GrpcServer
new_grpc_server loads security =
    if security.tls_enabled
    then elim (load_tls_config loads security) [
      | inl err ↦ inl err
      | inr tls ↦ inr (
          register_cluster_server
            (register_file_sync_server (record { credentials = tls ∷ []; services = [] })))
    ]
    else inr (
        register_cluster_server
          (register_file_sync_server (record { credentials = []; services = [] })))

-- A server that is created serves no service.
new_server_serves_nothing :
    (loads : String → String → Bool) (security : SecurityConfig) (s : GrpcServer)
    → new_grpc_server loads security ≡ inr s
    → s.services ≡ []
unfolding new_grpc_server load_tls_config register_file_sync_server register_cluster_server
new_server_serves_nothing loads security s e = ground arith
