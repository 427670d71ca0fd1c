-- ===== src/Engine/Patterns.antt =====
-- internal/sync/engine.go, `matchesFilePatterns`. `filepath.Match` is a parameter, with a malformed
-- pattern as no match, and so is `filepath.Base`.
use syncmesh.Common.{◌≡◌, ◌↔◌, ◌⊎◌, String, Bool, true, false, List, [], ◌∷◌, arith, if◌then◌else◌}
use syncmesh.Engine.State.{EngineConfig}

module _ (matches : String → String → Bool) where
  unfoldable pub matches_any : List String → String → Bool
  matches_any [] name = false
  matches_any (pattern ∷ patterns) name =
      let later = matches_any patterns name in if matches pattern name then true else later

  unfoldable pub matches_file_patterns : (String → String) → EngineConfig → String → Bool
  matches_file_patterns base config file_path =
      let included = matches_any config.include_patterns (base file_path) in
      if matches_any config.exclude_patterns (base file_path)
      then false
      else elim config.include_patterns [ [] ↦ true | _ ∷ _ ↦ included ]

  -- Some pattern of the list matches the name.
  abbrev pub Matched : List String → String → Type 0
  Matched [] name = ⊥
  Matched (pattern ∷ patterns) name = (matches pattern name ≡ true) ⊎ Matched patterns name

  matches_any_iff :
      (patterns : List String) (name : String)
      → (matches_any patterns name ≡ true) ↔ Matched patterns name
  unfolding matches_any
  matches_any_iff [] name = ground arith
  matches_any_iff (pattern ∷ patterns) name = ground (arith, matches_any_iff patterns name)

  -- A file passes the filter exactly if no exclude pattern matches its base name, and some include
  -- pattern does unless there is none.
  pub matches_file_patterns_iff :
      (base : String → String) (config : EngineConfig) (file_path : String)
      → (matches_file_patterns base config file_path ≡ true) ↔ (
          (¬ Matched config.exclude_patterns (base file_path))
          × ((config.include_patterns ≡ []) ⊎ Matched config.include_patterns (base file_path)))
  unfolding matches_file_patterns
  matches_file_patterns_iff base config file_path = ground (
    arith,
    matches_any_iff config.exclude_patterns (base file_path),
    matches_any_iff config.include_patterns (base file_path),
  )
