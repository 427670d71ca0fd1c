-- ===== src/Docker/Asking.antt =====
-- internal/docker/client.go, `shouldWatchVolume`: which volumes ask to be watched.
use text.Mathlib.TextBridge.{IsPrefix}
use text.Mathlib.TextEquality.{starts_with_iff}
use syncmesh.Common.{
  ◌≡◌, ◌≢◌, refl, ◌⊎◌, ◌↔◌, ap, inl, inr, String, true, some, eq_iff, lookup, arith, Option-cases,
  Bool-cases, text_cases,
}
use syncmesh.Config.{DockerConfig}
use syncmesh.Docker.State.{Volume, has_sync_label, has_volume_prefix, should_watch_volume}

-- The volume's name has the prefix that is configured, if there is one, or its label "sync" is "true".
abbrev pub AsksForSync : DockerConfig → Volume → Type 0
AsksForSync config v =
    (config.volume_prefix ≢ "") × IsPrefix config.volume_prefix v.name
    ⊎ (lookup "sync" v.labels ≡ some "true")

has_sync_label_iff :
    (v : Volume) → (has_sync_label v ≡ true) ↔ (lookup "sync" v.labels ≡ some "true")
unfolding has_sync_label
has_sync_label_iff v = elim (Option-cases (lookup "sync" v.labels)) [
  | inl e ↦ rw e (ground arith)
  | inr (label, e) ↦ rw e (
    λ t. ap (λ (l : String). some l) ((eq_iff label "true").0 t),
    λ same. ground (arith, same, eq_iff label "true"),
  )
]

has_volume_prefix_iff :
    (config : DockerConfig) (name : String)
    → (has_volume_prefix config name ≡ true)
      ↔ ((config.volume_prefix ≢ "") × IsPrefix config.volume_prefix name)
unfolding has_volume_prefix
has_volume_prefix_iff config name =
    let (to, from) = starts_with_iff name config.volume_prefix in
    elim (text_cases config.volume_prefix "") [
      | inl (t, same) ↦ rw t (λ e. ground (arith, e), λ (set, _). absurd (set same))
      | inr (t, other) ↦ rw t (λ e. (other, to e), λ (_, starts). from starts)
    ]

pub should_watch_volume_iff :
    (config : DockerConfig) (v : Volume)
    → (should_watch_volume config v ≡ true) ↔ AsksForSync config v
unfolding should_watch_volume
should_watch_volume_iff config v =
    let (prefixed, by_prefix) = has_volume_prefix_iff config v.name in
    let (labelled, by_label) = has_sync_label_iff v in
    elim (Bool-cases (has_volume_prefix config v.name)) [
      | inl t ↦ rw t (λ _. inl (prefixed t), λ _. refl)
      | inr t ↦ rw t (
        λ e. inr (labelled e),
        λ asks. elim asks [
          | inl good ↦ absurd ground (arith, t, by_prefix good)
          | inr label ↦ by_label label
        ],
      )
    ]
