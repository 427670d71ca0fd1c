-- ===== src/Docker/State.antt =====
-- internal/docker/client.go: the client and its operations. `join` is `filepath.Join` of the volumes'
-- directory, a name and "_data"; `range` is the order in which a loop visits the volumes.
use syncmesh.Common.{
  ℕ, ℤ, pos, ltb, length, String, Bool, true, false, Option, none, some, maybe, List, [], ◌∷◌, ◌++◌,
  ◌&&◌, ◌==◌, not, starts_with, Time, Map, lookup, insert, erase, contains, if◌then◌else◌,
}
use syncmesh.Config.{DockerConfig}

pub record Volume : Type 0 where
  pub name : String
  pub mount_point : String
  pub driver : String
  pub options : Map String
  pub labels : Map String
  pub created_at : Time
  pub scope : String

pub record Client : Type 0 where
  pub config : DockerConfig
  pub volumes : Map Volume

pub data VolumeError : Type 0 where
  already_exists not_found : VolumeError

pub record VolumeInfo : Type 0 where
  pub volume : Volume
  pub size_bytes : ℤ
  pub file_count : ℤ
  pub last_update : Time

-- `initializeMockVolumes`, and `NewClient`.
unfoldable pub mock_volume : Time → String → String → Volume
mock_volume now name mount_point = record {
  name = name;
  mount_point = mount_point;
  driver = "local";
  options = [];
  labels = ("sync", "true") ∷ [];
  created_at = now;
  scope = "local";
}

unfoldable pub new_client : Time → DockerConfig → Client
new_client now config = record {
  config = config;
  volumes =
      insert "app-data" (mock_volume now "app-data" "/app/data")
        (insert "sync-data" (mock_volume now "sync-data" "/sync-data") []);
}

-- `IsWatched` of a volume: its label "sync" is "true".
unfoldable pub has_sync_label : Volume → Bool
has_sync_label volume = maybe (lookup "sync" volume.labels) false λ label. label == "true"

unfoldable pub has_volume_prefix : DockerConfig → String → Bool
has_volume_prefix config name =
    not (config.volume_prefix == "") && starts_with name config.volume_prefix

-- `shouldWatchVolume`.
unfoldable pub should_watch_volume : DockerConfig → Volume → Bool
should_watch_volume config volume =
    if has_volume_prefix config volume.name then true else has_sync_label volume

-- The two loops of `GetWatchedVolumes`.
unfoldable pub configured_volumes : Map Volume → List String → List Volume
configured_volumes volumes [] = []
configured_volumes volumes (name ∷ names) =
    let rest = configured_volumes volumes names in
    maybe (lookup name volumes) rest λ volume. volume ∷ rest

unfoldable pub volumes_to_watch : DockerConfig → Map Volume → List Volume
volumes_to_watch config [] = []
volumes_to_watch config ((k, volume) ∷ visited) =
    let rest = volumes_to_watch config visited in
    if should_watch_volume config volume then volume ∷ rest else rest

unfoldable pub get_watched_volumes : (Map Volume → Map Volume) → Client → List Volume
get_watched_volumes range c = elim c.config.watched_volumes [
  | [] ↦ volumes_to_watch c.config (range c.volumes)
  | name ∷ names ↦ configured_volumes c.volumes (name ∷ names)
]

-- `GetVolume`; `none` is the error that there is none.
unfoldable pub get_volume : String → Client → Option Volume
get_volume volume_name c = lookup volume_name c.volumes

-- `GetVolumeInfo`.
unfoldable pub get_volume_info : Time → String → Client → Option VolumeInfo
get_volume_info now volume_name c = maybe (get_volume volume_name c) none λ volume.
    some (record {
      volume = volume;
      size_bytes = pos 104857600;
      file_count = pos 42;
      last_update = now;
    })

-- `ListVolumes`.
unfoldable pub list_volumes : Map Volume → List Volume
list_volumes [] = []
list_volumes ((k, volume) ∷ visited) = volume ∷ list_volumes visited

-- `CreateVolume`.
unfoldable pub created_volume : (String → String) → Time → String → Map String → Client → Volume
created_volume join now name options c = record {
  name = name;
  mount_point = join name;
  driver = "local";
  options = options;
  labels = if has_volume_prefix c.config name then ("sync", "true") ∷ [] else [];
  created_at = now;
  scope = "local";
}

unfoldable pub create_volume :
    (String → String) → Time → String → Map String → Client → Client × Option VolumeError
create_volume join now name options c =
    if contains name c.volumes then (c, some VolumeError.already_exists) else (
      record c { volumes = insert name (created_volume join now name options c) c.volumes },
      none,
    )

-- `RemoveVolume`, which does not look at `force`.
unfoldable pub remove_volume : String → Bool → Client → Client × Option VolumeError
remove_volume name force c =
    if contains name c.volumes
    then (record c { volumes = erase name c.volumes }, none)
    else (c, some VolumeError.not_found)

-- `ValidateVolumeAccess`.
unfoldable pub validate_volume_access : String → Client → Option VolumeError
validate_volume_access volume_name c =
    maybe (get_volume volume_name c) (some VolumeError.not_found) λ volume. none

pub record DockerHealth : Type 0 where
  pub connected : Bool
  pub volumes_count : ℕ
  pub socket_path : String
  pub api_version : String
  pub last_check : Time

-- `Health`.
unfoldable pub docker_health : Time → Client → DockerHealth
docker_health now c = record {
  connected = true;
  volumes_count = length c.volumes;
  socket_path = c.config.socket_path;
  api_version = c.config.api_version;
  last_check = now;
}

pub record VolumeEvent : Type 0 where
  pub type : String
  pub volume_name : String
  pub timestamp : Time
  pub attributes : Map String

abbrev pub event_capacity : ℕ
event_capacity = 100

-- One tick of `GetVolumeEvents`, with the events that wait in its channel.
unfoldable pub send_events : Time → Map Volume → List VolumeEvent → List VolumeEvent
send_events now [] channel = channel
send_events now ((k, volume) ∷ visited) channel =
    let event : VolumeEvent = record {
      type = "volume-update";
      volume_name = k;
      timestamp = now;
      attributes = ("driver", "local") ∷ [];
    } in
    send_events now visited
      (if ltb (length channel) event_capacity then channel ++ event ∷ [] else channel)
