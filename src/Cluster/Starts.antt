-- ===== src/Cluster/Starts.antt =====
-- internal/cluster/manager.go, `Start` and `Stop`: the errors, and what is left running.
use syncmesh.Common.{◌≡◌, refl, ◌≢◌, true, false, Option, some, eq-false, ap}
use syncmesh.Cluster.State.{Manager, ClusterError, already_running, unsupported_mode}
use syncmesh.Cluster.Lifecycle.{start, stop}

start-unsupported :
    (m : Manager)
    → m.running ≡ false
    → m.config.mode ≢ "raft"
    → m.config.mode ≢ "consul"
    → m.config.mode ≢ "etcd"
    → start m ≡ (record m { running = true }, some (unsupported_mode m.config.mode))
unfolding start
start-unsupported m idle raft consul etcd =
    simp (idle, eq-false _ _ raft, eq-false _ _ consul, eq-false _ _ etcd) refl

start-running :
    (m : Manager)
    → start (record m { running = true }) ≡ (record m { running = true }, some already_running)
unfolding start
start-running m = refl

start-stop :
    (m : Manager)
    → m.config.mode ≢ "raft"
    → m.config.mode ≢ "consul"
    → m.config.mode ≢ "etcd"
    → (start (stop (record m { running = true }))).1 ≡ some (unsupported_mode m.config.mode)
unfolding stop
start-stop m raft consul etcd =
    ap (λ (r : Manager × Option ClusterError). r.1)
      (start-unsupported (stop (record m { running = true })) refl raft consul etcd)

-- Starting a manager that is not running in a mode other than raft, consul and etcd is an error that
-- names the mode, and yet counts as running: each further start is refused as already running until
-- the manager is stopped, after which the same error comes again.
pub unsupported_start :
    (m : Manager)
    → m.running ≡ false
    → m.config.mode ≢ "raft"
    → m.config.mode ≢ "consul"
    → m.config.mode ≢ "etcd"
    → let first = start m in
      (first.1 ≡ some (unsupported_mode m.config.mode))
      × (start first.0 ≡ (first.0, some already_running))
      × ((start (stop first.0)).1 ≡ some (unsupported_mode m.config.mode))
unsupported_start m idle raft consul etcd =
    rw (start-unsupported m idle raft consul etcd)
      (refl, start-running m, start-stop m raft consul etcd)
