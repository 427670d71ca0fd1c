-- ===== src/Docker/Volumes.antt =====
-- internal/docker/client.go: which volumes are watched, created and removed.
use syncmesh.Common.{
  Among, ◌≡◌, refl, ◌⊎◌, ◌↔◌, ◌∙◌, sym, ap, inl, inr, String, Bool, true, false, none, some, List,
  [], ◌∷◌, ◌==◌, eq_iff, eq_refl, Time, Map, lookup, insert, erase, lookup-insert, lookup_self,
  lookup-erase, HasDistinctKeys, Enumerates, if◌then◌else◌, arith, Option-cases, Bool-cases,
  text_cases,
}
use syncmesh.Docker.Asking.{AsksForSync, should_watch_volume_iff}
use syncmesh.Docker.State.{
  Volume, Client, VolumeError, should_watch_volume, configured_volumes, volumes_to_watch,
  get_watched_volumes, get_volume, created_volume, create_volume, remove_volume,
}

-- The volume is there, and its name is configured, or no name is and its prefix or label asks for it.
abbrev pub IsToWatch : Client → Volume → Type 0
IsToWatch c v =
    (k : String) × (lookup k c.volumes ≡ some v)
    × (Among k c.config.watched_volumes
        ⊎ ((c.config.watched_volumes ≡ []) × AsksForSync c.config v))

configured_volumes_iff :
    (volumes : Map Volume) (names : List String) (v : Volume)
    → Among v (configured_volumes volumes names)
      ↔ ((k : String) × (lookup k volumes ≡ some v) × Among k names)
unfolding configured_volumes
configured_volumes_iff volumes [] v = (λ h. absurd h, λ (k, e, h). h)
configured_volumes_iff volumes (name ∷ names) v =
    let (to, from) = configured_volumes_iff volumes names v in
    elim (Option-cases (lookup name volumes)) [
      | inl e ↦ rw e (
        λ h. let (k, found, listed) = to h in (k, found, inr listed),
        λ (k, found, listed). elim listed [
          | inl same ↦ absurd (gone k same e found)
          | inr later ↦ from (k, found, later)
        ],
      )
      | inr (w, e) ↦ rw e (
        λ h. elim h [
          | inl same ↦ (name, e ∙ ap (λ (u : Volume). some u) (sym same), inl refl)
          | inr later ↦ let (k, found, listed) = to later in (k, found, inr listed)
        ],
        λ (k, found, listed). elim listed [
          | inl same ↦ inl (one k same e found)
          | inr later ↦ inr (from (k, found, later))
        ],
      )
    ]
  where
    gone : (k : String) → k ≡ name → lookup name volumes ≡ none → lookup k volumes ≡ some v → ⊥
    gone k same e found = ground arith

    one :
        {w : Volume} (k : String)
        → k ≡ name
        → lookup name volumes ≡ some w
        → lookup k volumes ≡ some v
        → v ≡ w
    one k same e found = ground arith

stays-Among :
    (b : Bool) (v w : Volume) (rest : List Volume)
    → Among v rest
    → Among v (if b then w ∷ rest else rest)
stays-Among true v w rest h = inr h
stays-Among false v w rest h = h

volumes_to_watch_iff :
    (range : Map Volume) (c : Client) (v : Volume)
    → HasDistinctKeys range
    → Among v (volumes_to_watch c.config range)
      ↔ ((k : String) × (lookup k range ≡ some v) × (should_watch_volume c.config v ≡ true))
unfolding volumes_to_watch lookup
volumes_to_watch_iff [] c v d = (λ h. absurd h, λ (k, e, h). ground arith)
volumes_to_watch_iff ((j, w) ∷ visited) c v (fresh, d) =
    let (to, from) = volumes_to_watch_iff visited c v d in
    (
      λ h. elim (Bool-cases (should_watch_volume c.config w)) [
        | inl t ↦ elim (rw t at h) [
          | inl same ↦ (
            j,
            rw (eq_refl j) (ap (λ (u : Volume). some u) (sym same)),
            ap (should_watch_volume c.config) same ∙ t,
          )
          | inr later ↦ let (k, found, good) = to later in (k, older k found, good)
        ]
        | inr t ↦ let (k, found, good) = to (rw t at h) in (k, older k found, good)
      ],
      λ (k, found, good). elim (text_cases j k) [
        | inl (t, _) ↦
            let same : w ≡ v = first k t found in
            rw (ap (should_watch_volume c.config) same ∙ good) (inl (sym same))
        | inr (t, _) ↦
            stays-Among (should_watch_volume c.config w) v w (volumes_to_watch c.config visited)
              (from (k, rw t at found, good))
      ],
    )
  where
    older : (k : String) → lookup k visited ≡ some v → lookup k ((j, w) ∷ visited) ≡ some v
    older k found = ground (arith, eq_iff j k)

    first : (k : String) → (j == k) ≡ true → lookup k ((j, w) ∷ visited) ≡ some v → w ≡ v
    first k t found = ground arith

module _ (range : Map Volume → Map Volume)
    (orders : (m : Map Volume) → Enumerates (range m) m) where
  by_names :
      (c : Client) (v : Volume) (names : List String)
      → Among v (elim names [
        | [] ↦ volumes_to_watch c.config (range c.volumes)
        | name ∷ rest ↦ configured_volumes c.volumes (name ∷ rest)
      ])
        ↔ ((k : String) × (lookup k c.volumes ≡ some v)
            × (Among k names ⊎ ((names ≡ []) × (should_watch_volume c.config v ≡ true))))
  by_names c v [] =
      let (d, same) = orders c.volumes in
      let (to, from) = volumes_to_watch_iff (range c.volumes) c v d in
      (
        λ h. let (k, found, good) = to h in (k, sym (same k) ∙ found, inr (refl, good)),
        λ (k, found, why). elim why [
          | inl listed ↦ absurd listed
          | inr (_, good) ↦ from (k, same k ∙ found, good)
        ],
      )
  by_names c v (name ∷ names) =
      let (to, from) = configured_volumes_iff c.volumes (name ∷ names) v in
      (
        λ h. let (k, found, listed) = to h in (k, found, inl listed),
        λ (k, found, why). elim why [
          | inl listed ↦ from (k, found, listed)
          | inr (e, _) ↦ ground arith
        ],
      )

  -- The volumes that are watched are, in whatever order the loop visits them, exactly those that are
  -- there and whose name is configured, or, where no name is, whose name has the configured prefix, which is
  -- not empty, or whose label "sync" is "true".
  pub get_watched_volumes_iff :
      (c : Client) (v : Volume) → Among v (get_watched_volumes range c) ↔ IsToWatch c v
  unfolding get_watched_volumes
  get_watched_volumes_iff c v =
      let (to, from) = by_names c v c.config.watched_volumes in
      let (asks, watched) = should_watch_volume_iff c.config v in
      (
        λ h.
            let (k, found, why) = to h in
            (k, found, elim why [ inl listed ↦ inl listed | inr (e, good) ↦ inr (e, asks good) ]),
        λ (k, found, why). from (
          k,
          found,
          elim why [ inl listed ↦ inl listed | inr (e, good) ↦ inr (e, watched good) ],
        ),
      )

module _ (join : String → String) (now : Time) (name : String) (options : Map String)
    (c : Client) where
  creates :
      lookup name c.volumes ≡ none
      → create_volume join now name options c ≡ (
        record c { volumes = insert name (created_volume join now name options c) c.volumes },
        none,
      )
  unfolding create_volume
  creates free = ground arith

  exists_already :
      (v : Volume)
      → lookup name c.volumes ≡ some v
      → create_volume join now name options c ≡ (c, some VolumeError.already_exists)
  unfolding create_volume
  exists_already v there = ground arith

removes :
    (name : String) (force : Bool) (c : Client) (v : Volume)
    → lookup name c.volumes ≡ some v
    → remove_volume name force c ≡ (record c { volumes = erase name c.volumes }, none)
unfolding remove_volume
removes name force c v there = ground arith

-- A volume whose name is free can be created, is then there, cannot be created again, and can be
-- removed, which leaves every volume as it was before.
pub create-remove_volume :
    (join : String → String) (now : Time) (name : String) (options : Map String) (force : Bool)
    (c : Client)
    → lookup name c.volumes ≡ none
    → let (created, e) = create_volume join now name options c in
      let (removed, f) = remove_volume name force created in
      (e ≡ none)
      × (get_volume name created ≡ some (created_volume join now name options c))
      × (create_volume join now name options created ≡ (created, some VolumeError.already_exists))
      × (f ≡ none)
      × ((k : String) → get_volume k removed ≡ get_volume k c)
unfolding get_volume
create-remove_volume join now name options force c free =
    let volume = created_volume join now name options c in
    let there = lookup_self name volume c.volumes in
    rw (creates join now name options c free) (
      rw (removes name force (record c { volumes = insert name volume c.volumes }) volume there) (
        refl,
        there,
        exists_already join now name options (record c { volumes = insert name volume c.volumes })
            volume there,
        refl,
        λ k. ground (
          arith,
          eq_iff name k,
          lookup-erase name k (insert name volume c.volumes),
          lookup-insert name k volume c.volumes,
        ),
      ))
