-- ===== src/Config/Validation.antt =====
-- internal/config/config.go, `Validate`: `none` is the nil error.
use syncmesh.Common.{
  String, ℤ, pos, Bool, true, false, not, Option, none, some, ◌≡◌, refl, subst, ◌≢◌, ◌⊎◌, ◌↔◌, ◌&&◌,
  ◌||◌, ◌==◌, eq_iff, ◌≤ℤ◌, ltb_ℤ, if◌then◌else◌, arith,
}
use syncmesh.Config.{Config, SecurityConfig}

pub data ConfigError : Type 0 where
  invalid_server_port : ℤ → ConfigError
  invalid_grpc_port : ℤ → ConfigError
  sync_interval : ConfigError
  sync_batch_size : ConfigError
  invalid_conflict_resolution : String → ConfigError
  invalid_checksum_algorithm : String → ConfigError
  invalid_cluster_mode : String → ConfigError
  tls_files_missing : ConfigError

-- An early return of the first error.
infixl 5 ◌>>◌
abbrev ◌>>◌ : Option ConfigError → Option ConfigError → Option ConfigError
none >> rest = rest
some e >> rest = some e

abbrev fail_if : Bool → ConfigError → Option ConfigError
fail_if bad e = if bad then some e else none

-- `p <= 0 || p > 65535`.
unfoldable pub bad_port : ℤ → Bool
bad_port p = not (ltb_ℤ (pos 0) p) || ltb_ℤ (pos 65535) p

unfoldable pub bad_strategy : String → Bool
bad_strategy s = not (s == "timestamp") && not (s == "size") && not (s == "manual")

unfoldable pub bad_algorithm : String → Bool
bad_algorithm s = not (s == "sha256") && not (s == "md5")

unfoldable pub bad_mode : String → Bool
bad_mode s = not (s == "raft") && not (s == "consul") && not (s == "etcd") && not (s == "p2p")

unfoldable pub bad_tls : SecurityConfig → Bool
bad_tls s = s.tls_enabled && (s.tls_cert_file == "" || s.tls_key_file == "")

unfoldable pub validate : Config → Option ConfigError
validate c = do
  fail_if (bad_port c.server.port) (invalid_server_port c.server.port)
  fail_if (bad_port c.server.grpc_port) (invalid_grpc_port c.server.grpc_port)
  fail_if (not (ltb_ℤ (pos 0) c.sync.interval)) sync_interval
  fail_if (not (ltb_ℤ (pos 0) c.sync.batch_size)) sync_batch_size
  fail_if (bad_strategy c.sync.conflict_resolution)
      (invalid_conflict_resolution c.sync.conflict_resolution)
  fail_if (bad_algorithm c.sync.checksum_algorithm)
      (invalid_checksum_algorithm c.sync.checksum_algorithm)
  fail_if (bad_mode c.cluster.mode) (invalid_cluster_mode c.cluster.mode)
  fail_if (bad_tls c.security) tls_files_missing

abbrev pub IsPort : ℤ → Type 0
IsPort p = (pos 1 ≤ℤ p) × (p ≤ℤ pos 65535)

abbrev pub IsStrategy : String → Type 0
IsStrategy s = (s ≡ "timestamp") ⊎ (s ≡ "size") ⊎ (s ≡ "manual")

abbrev pub IsAlgorithm : String → Type 0
IsAlgorithm s = (s ≡ "sha256") ⊎ (s ≡ "md5")

abbrev pub IsMode : String → Type 0
IsMode s = (s ≡ "raft") ⊎ (s ≡ "consul") ⊎ (s ≡ "etcd") ⊎ (s ≡ "p2p")

abbrev pub HasTlsFiles : SecurityConfig → Type 0
HasTlsFiles s = s.tls_enabled ≡ true → (s.tls_cert_file ≢ "") × (s.tls_key_file ≢ "")

-- What a valid configuration promises, field by field.
pub record IsValid (c : Config) : Type 0 where
  pub server_port : IsPort c.server.port
  pub grpc_port : IsPort c.server.grpc_port
  pub interval : pos 1 ≤ℤ c.sync.interval
  pub batch_size : pos 1 ≤ℤ c.sync.batch_size
  pub conflict_resolution : IsStrategy c.sync.conflict_resolution
  pub checksum_algorithm : IsAlgorithm c.sync.checksum_algorithm
  pub mode : IsMode c.cluster.mode
  pub tls : HasTlsFiles c.security

bad_port_iff : (p : ℤ) → (bad_port p ≡ false) ↔ IsPort p
unfolding bad_port
bad_port_iff p = (λ h. ground arith, λ h. ground arith)

not_pos_iff : (n : ℤ) → (not (ltb_ℤ (pos 0) n) ≡ false) ↔ (pos 1 ≤ℤ n)
not_pos_iff n = (λ h. ground arith, λ h. ground arith)

bad_strategy_iff : (s : String) → (bad_strategy s ≡ false) ↔ IsStrategy s
unfolding bad_strategy
bad_strategy_iff s = (
  λ h. ground (arith, eq_iff s "timestamp", eq_iff s "size", eq_iff s "manual"),
  λ h. ground (arith, eq_iff s "timestamp", eq_iff s "size", eq_iff s "manual"),
)

bad_algorithm_iff : (s : String) → (bad_algorithm s ≡ false) ↔ IsAlgorithm s
unfolding bad_algorithm
bad_algorithm_iff s = (
  λ h. ground (arith, eq_iff s "sha256", eq_iff s "md5"),
  λ h. ground (arith, eq_iff s "sha256", eq_iff s "md5"),
)

bad_mode_iff : (s : String) → (bad_mode s ≡ false) ↔ IsMode s
unfolding bad_mode
bad_mode_iff s = (
  λ h. ground (arith, eq_iff s "raft", eq_iff s "consul", eq_iff s "etcd", eq_iff s "p2p"),
  λ h. ground (arith, eq_iff s "raft", eq_iff s "consul", eq_iff s "etcd", eq_iff s "p2p"),
)

bad_tls_iff : (s : SecurityConfig) → (bad_tls s ≡ false) ↔ HasTlsFiles s
unfolding bad_tls
bad_tls_iff s = (
  λ h e. ground (arith, eq_iff s.tls_cert_file "", eq_iff s.tls_key_file ""),
  λ h. ground (arith, eq_iff s.tls_cert_file "", eq_iff s.tls_key_file ""),
)

-- A configuration passes exactly if every field is as promised: both ports lie in 1 to 65535, the
-- sync interval and the batch size are positive, the strategy, the checksum algorithm and the
-- cluster mode are among those named, and with TLS on both files are given.
pub validate_iff : (c : Config) → (validate c ≡ none) ↔ IsValid c
unfolding validate
validate_iff c = (
  λ h. record {
    server_port = (bad_port_iff _).0 (ground arith);
    grpc_port = (bad_port_iff _).0 (ground arith);
    interval = (not_pos_iff _).0 (ground arith);
    batch_size = (not_pos_iff _).0 (ground arith);
    conflict_resolution = (bad_strategy_iff _).0 (ground arith);
    checksum_algorithm = (bad_algorithm_iff _).0 (ground arith);
    mode = (bad_mode_iff _).0 (ground arith);
    tls = (bad_tls_iff c.security).0 (ground arith);
  },
  λ v. rw (
    (bad_port_iff c.server.port).1 v.server_port,
    (bad_port_iff c.server.grpc_port).1 v.grpc_port,
    (not_pos_iff c.sync.interval).1 v.interval,
    (not_pos_iff c.sync.batch_size).1 v.batch_size,
    (bad_strategy_iff c.sync.conflict_resolution).1 v.conflict_resolution,
    (bad_algorithm_iff c.sync.checksum_algorithm).1 v.checksum_algorithm,
    (bad_mode_iff c.cluster.mode).1 v.mode,
    (bad_tls_iff c.security).1 v.tls,
  ),
)

-- What each error says of the configuration.
abbrev pub Blames : Config → ConfigError → Type 0
Blames c (invalid_server_port p) = (p ≡ c.server.port) × (¬ IsPort p)
Blames c (invalid_grpc_port p) = (p ≡ c.server.grpc_port) × (¬ IsPort p)
Blames c sync_interval = c.sync.interval ≤ℤ pos 0
Blames c sync_batch_size = c.sync.batch_size ≤ℤ pos 0
Blames c (invalid_conflict_resolution s) = (s ≡ c.sync.conflict_resolution) × (¬ IsStrategy s)
Blames c (invalid_checksum_algorithm s) = (s ≡ c.sync.checksum_algorithm) × (¬ IsAlgorithm s)
Blames c (invalid_cluster_mode s) = (s ≡ c.cluster.mode) × (¬ IsMode s)
Blames c tls_files_missing =
    (c.security.tls_enabled ≡ true)
    × ((c.security.tls_cert_file ≡ "") ⊎ (c.security.tls_key_file ≡ ""))

not_of_bad : {P : Type 0} (b : Bool) → (b ≡ false) ↔ P → b ≡ true → ¬ P
not_of_bad b iff h p = ground (arith, iff.1 p)

bad_tls-Blames : (c : Config) → bad_tls c.security ≡ true → Blames c tls_files_missing
unfolding bad_tls
bad_tls-Blames c h =
    ground (arith, eq_iff c.security.tls_cert_file "", eq_iff c.security.tls_key_file "")

check-Blames :
    (P : ConfigError → Type 0) (bad : Bool) (e : ConfigError) (rest : Option ConfigError)
    → (bad ≡ true → P e)
    → ((x : ConfigError) → rest ≡ some x → P x)
    → (x : ConfigError) → (fail_if bad e >> rest) ≡ some x
    → P x
check-Blames P true e rest here later x h = subst P (ground arith) (here refl)
check-Blames P false e rest here later x h = later x h

last-Blames :
    (P : ConfigError → Type 0) (bad : Bool) (e : ConfigError)
    → (bad ≡ true → P e)
    → (x : ConfigError) → fail_if bad e ≡ some x
    → P x
last-Blames P true e here x h = subst P (ground arith) (here refl)
last-Blames P false e here x h = cc

-- An error names a field that breaks its promise, with the value that the field has.
pub validate-Blames : (c : Config) (e : ConfigError) → validate c ≡ some e → Blames c e
unfolding validate
validate-Blames c =
    check-Blames P (bad_port c.server.port) (invalid_server_port c.server.port) _
      (λ h. (refl, not_of_bad _ (bad_port_iff _) h))
      (check-Blames P (bad_port c.server.grpc_port) (invalid_grpc_port c.server.grpc_port) _
        (λ h. (refl, not_of_bad _ (bad_port_iff _) h))
        (check-Blames P (not (ltb_ℤ (pos 0) c.sync.interval)) sync_interval _ (λ h. ground arith)
          (check-Blames P (not (ltb_ℤ (pos 0) c.sync.batch_size)) sync_batch_size _
            (λ h. ground arith)
            (check-Blames P (bad_strategy strategy) (invalid_conflict_resolution strategy) _
              (λ h. (refl, not_of_bad _ (bad_strategy_iff _) h))
              (check-Blames P (bad_algorithm algorithm) (invalid_checksum_algorithm algorithm) _
                (λ h. (refl, not_of_bad _ (bad_algorithm_iff _) h))
                (check-Blames P (bad_mode c.cluster.mode) (invalid_cluster_mode c.cluster.mode) _
                  (λ h. (refl, not_of_bad _ (bad_mode_iff _) h))
                  (last-Blames P (bad_tls c.security) tls_files_missing (bad_tls-Blames c))))))))
  where
    open c.sync use {conflict_resolution as strategy, checksum_algorithm as algorithm}

    P : ConfigError → Type 0
    P = Blames c
