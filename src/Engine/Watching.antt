-- ===== src/Engine/Watching.antt =====
-- internal/sync/engine.go, `watchFiles`: the loop, by what its select finds.
use syncmesh.Common.{String, List, [], ◌∷◌}
use syncmesh.Engine.State.{Engine, WatchEvent, handle_watch_event}

-- An event or an error of the watcher; the context that ends, or a channel that is closed.
pub data Ready : Type 0 where
  changed : WatchEvent → Ready
  failed done events_closed errors_closed : Ready

unfoldable pub watch_files : (String → String) → List Ready → Engine → Engine
watch_files base [] e = e
watch_files base (Ready.changed event ∷ rest) e =
    watch_files base rest (handle_watch_event base event e)
watch_files base (Ready.failed ∷ rest) e = watch_files base rest e
watch_files base (Ready.done ∷ rest) e = e
watch_files base (Ready.events_closed ∷ rest) e = e
watch_files base (Ready.errors_closed ∷ rest) e = e
