-- ===== src/Witnesses/Servers.antt =====
-- Tests of the whole server.
use syncmesh.Common.{
  List, ◌∷◌, ◌==◌, ◌&&◌, not, inr, ◌≡◌, refl, ℕ, String, Bool, true, false, ℤ, ◌⊎◌, none, some, [],
  pos, Map,
}
use syncmesh.FileSync.State.{Bytes}
use syncmesh.Engine.State.{Stat}
use syncmesh.Monitoring.Checks.{MemStats, new_service}
use syncmesh.P2pNode.State.{new_node}
use syncmesh.Monitoring.Serving.{Page}
use syncmesh.Server.{Server, new_server, start_components, ServerError}
use syncmesh.Server.Running.{ServerEnd, run_server}
use syncmesh.Server.Serving.{CanServe}
use syncmesh.Server.Tickers.{Ticks}
use syncmesh.Server.Ending.{run_server-ends}
use syncmesh.Server.Defaults.{default_server-panics}
use syncmesh.Config.{Config, P2pConfig}
use syncmesh.Config.Validation.{validate}
use syncmesh.Config.Defaults.{default_config}
use syncmesh.Witnesses.Configs.{config}
use syncmesh.Witnesses.Files.{toy_os}
use syncmesh.Witnesses.Peers.{second_time}

-- Nothing is there, and every directory can be watched.
abbrev absent : String → Map Bytes → Stat
absent path fs = Stat.not_exist

abbrev watched : String → Map Bytes → Bool
watched path fs = true

abbrev memory : ℕ → MemStats
memory n = record { alloc = 1; total_alloc = 1; sys = 1; num_gc = 0 }

abbrev print : ℕ → String
print n = ""

abbrev goroutines : ℕ → ℕ
goroutines n = n

abbrev number : ℤ → String
number z = "8080"

abbrev loads : String → String → Bool
loads cert key = false

-- No path is empty, and none stands twice.
abbrev is_free : String → List (String × Page) → Bool
is_free path [] = true
is_free path ((other, page) ∷ pages) =
    let later = is_free path pages in not (path == other) && later

abbrev registers : List (String × Page) → Bool
registers [] = true
registers ((path, page) ∷ pages) =
    let later = registers pages in not (path == "") && is_free path pages && later

-- The configuration with positive intervals.
abbrev ticking : Config
ticking = record (config (pos 8080)) {
  p2p = record (config (pos 8080)).p2p {
    cluster = record {
      heartbeat_interval = pos 1;
      election_timeout = pos 1;
      consensus_timeout = pos 0;
    };
  };
}

abbrev server : Config → Server (Map Bytes) ℕ
server c =
    new_server c (new_node "a" c.p2p.file_sync [])
      (new_service print memory goroutines c.monitoring second_time)

abbrev end : Config → ServerEnd (Map Bytes) ℕ
end c =
    run_server toy_os absent watched true (some "a") true true true true number loads registers true
      (server c)

run_server-ends_example :
    let (started, e) =
      start_components toy_os absent watched true (some "a") true true true true (server ticking) in
    (e ≡ none)
      × CanServe loads ticking.security
      × Ticks ticking
      × (end ticking ≡ ServerEnd.stop_panicked)
    ⊎ (e ≡ none)
      × CanServe loads ticking.security
      × (¬ Ticks ticking)
      × (end ticking ≡ ServerEnd.goroutine_panicked)
    ⊎ (¬ ((e ≡ none) × CanServe loads ticking.security))
      × (((err : ServerError) × (m : Server (Map Bytes) ℕ) × (end ticking ≡ ServerEnd.failed err m))
          ⊎ (¬ Ticks ticking) × (true ≡ true) × (end ticking ≡ ServerEnd.goroutine_panicked))
run_server-ends_example =
    run_server-ends toy_os absent watched true (some "a") true true true true number loads ticking
      "a" [] print memory goroutines second_time registers true (inr refl)

-- The section that a configuration has when nothing sets it.
abbrev unset : P2pConfig
unset = record (config (pos 8080)).p2p {
  cluster = record {
    heartbeat_interval = pos 0;
    election_timeout = pos 0;
    consensus_timeout = pos 0;
  };
}

default_server-panics_example :
    (validate (default_config "a" unset) ≡ none)
    × (end (default_config "a" unset) ≡ ServerEnd.goroutine_panicked)
default_server-panics_example =
    default_server-panics toy_os absent watched number loads print memory goroutines registers "a"
      "a" "a" unset true true second_time [] refl refl
