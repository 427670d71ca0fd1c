-- ===== src/Common/Maps.antt =====
-- Go maps with text keys, as association lists. `range` visits the entries in an order that the
-- language leaves open: `Enumerates` says what every order has in common.
use mathlib.Core.Logic.{◌⊎◌}
use Prim.Native.String.{String}
use mathlib.Core.Path.{◌≡◌, refl}
use mathlib.Core.Bool.{Bool, true, false}
use mathlib.Core.Option.{Option, none, some}
use mathlib.Core.Option
use mathlib.Core.List.{List, [], ◌∷◌}
use native.Mathlib.Omega.{arith}
use text.Mathlib.Text.{◌==◌}
use text.Mathlib.TextEquality.{eq_iff}
use text.Mathlib.TextPositions.{eq_refl}
use syncmesh.Common.Tests.{if◌then◌else◌}

abbrev pub Map {ℓ} : Type ℓ → Type ℓ
Map V = List (String × V)

module _ {ℓ} {V : Type ℓ} where
  unfoldable pub lookup : String → Map V → Option V
  lookup k [] = none
  lookup k ((key, value) ∷ entries) = if key == k then some value else lookup k entries

  unfoldable pub insert : String → V → Map V → Map V
  insert k new [] = (k, new) ∷ []
  insert k new ((key, value) ∷ entries) =
      if key == k then (k, new) ∷ entries else (key, value) ∷ insert k new entries

  unfoldable pub erase : String → Map V → Map V
  erase k [] = []
  erase k ((j, v) ∷ m) = if j == k then erase k m else (j, v) ∷ erase k m

  unfoldable pub map_values : (V → V) → Map V → Map V
  map_values f [] = []
  map_values f ((j, v) ∷ m) = (j, f v) ∷ map_values f m

  -- `if v, exists := m[k]; exists { … }` with a change of `*v`.
  unfoldable pub modify : String → (V → V) → Map V → Map V
  modify k f [] = []
  modify k f ((j, v) ∷ m) = if j == k then (j, f v) ∷ m else (j, v) ∷ modify k f m

  abbrev pub contains : String → Map V → Bool
  contains k m = elim (lookup k m) [ none ↦ false | some v ↦ true ]

  pub lookup-insert :
      (stored asked : String) (new : V) (entries : Map V)
      → lookup asked (insert stored new entries)
        ≡ (if stored == asked then some new else lookup asked entries)
  unfolding lookup insert
  lookup-insert stored asked new [] = refl
  lookup-insert stored asked new ((key, value) ∷ entries) = ground (
    arith,
    eq_iff key asked,
    eq_iff key stored,
    eq_iff stored asked,
    lookup-insert stored asked new entries,
  )

  pub lookup-erase :
      (k j : String) (m : Map V) → lookup j (erase k m) ≡ (if k == j then none else lookup j m)
  unfolding lookup erase
  lookup-erase k j [] = ground arith
  lookup-erase k j ((i, w) ∷ m) =
      ground (arith, eq_iff k j, eq_iff i k, eq_iff i j, lookup-erase k j m)

  pub lookup-map_values :
      (f : V → V) (k : String) (m : Map V) → lookup k (map_values f m) ≡ Option.map f (lookup k m)
  unfolding lookup map_values
  lookup-map_values f k [] = refl
  lookup-map_values f k ((j, v) ∷ m) = ground (arith, lookup-map_values f k m)

  pub lookup-modify :
      (k j : String) (f : V → V) (m : Map V)
      → lookup j (modify k f m) ≡ (if k == j then Option.map f (lookup j m) else lookup j m)
  unfolding lookup modify
  lookup-modify k j f [] = ground arith
  lookup-modify k j f ((i, w) ∷ m) =
      ground (arith, eq_iff k j, eq_iff i k, eq_iff i j, lookup-modify k j f m)

  pub lookup_self : (k : String) (v : V) (m : Map V) → lookup k (insert k v m) ≡ some v
  lookup_self k v m = rw (lookup-insert k k v m, eq_refl k)

  -- Each key stands once.
  abbrev pub HasDistinctKeys : Map V → Type ℓ
  HasDistinctKeys [] = Unit
  HasDistinctKeys ((k, v) ∷ m) = (lookup k m ≡ none) × HasDistinctKeys m

  -- A property of every entry.
  abbrev pub AllEntries {κ} : (String → V → Type κ) → Map V → Type κ
  AllEntries P [] = Unit
  AllEntries P ((k, v) ∷ m) = P k v × AllEntries P m

  -- The entries in an order in which `range` may visit them.
  abbrev pub Enumerates : Map V → Map V → Type ℓ
  Enumerates visited m = HasDistinctKeys visited × ((k : String) → lookup k visited ≡ lookup k m)

-- The list has the element.
abbrev pub Among : {A : Type 0} → A → List A → Type 0
Among x [] = ⊥
Among x (y ∷ ys) = (x ≡ y) ⊎ Among x ys

module _ {ℓ} {V : Type ℓ} where
  pub insert-HasDistinctKeys :
      (k : String) (v : V) (m : Map V) → HasDistinctKeys m → HasDistinctKeys (insert k v m)
  unfolding lookup insert
  insert-HasDistinctKeys k v [] d = ground arith
  insert-HasDistinctKeys k v ((i, w) ∷ m) d =
      ground (arith, eq_iff i k, eq_iff k i, lookup-insert k i v m, insert-HasDistinctKeys k v m)

  pub erase-HasDistinctKeys :
      (k : String) (m : Map V) → HasDistinctKeys m → HasDistinctKeys (erase k m)
  unfolding erase
  erase-HasDistinctKeys k [] d = tt
  erase-HasDistinctKeys k ((i, w) ∷ m) d =
      ground (arith, lookup-erase k i m, erase-HasDistinctKeys k m)

  pub modify-HasDistinctKeys :
      (k : String) (f : V → V) (m : Map V) → HasDistinctKeys m → HasDistinctKeys (modify k f m)
  unfolding modify
  modify-HasDistinctKeys k f [] d = tt
  modify-HasDistinctKeys k f ((i, w) ∷ m) d =
      ground (arith, eq_iff i k, eq_iff k i, lookup-modify k i f m, modify-HasDistinctKeys k f m)

  pub map_values-HasDistinctKeys :
      (f : V → V) (m : Map V) → HasDistinctKeys m → HasDistinctKeys (map_values f m)
  unfolding map_values
  map_values-HasDistinctKeys f [] d = tt
  map_values-HasDistinctKeys f ((i, w) ∷ m) d =
      ground (arith, lookup-map_values f i m, map_values-HasDistinctKeys f m)
