-- ===== src/Common/Text.antt =====
-- The order of texts, `s < t` in Go: by code points, which for UTF-8 is the order by bytes.
use Prim.Native.Nat.{ℕ, Ordering, compare as compare_ℕ}
use Prim.Native.Char.{code}
use Prim.Native.String.{String, [], ◌∷◌, compare, then}
use Prim.Native.String.compare
use Prim.Native.String.{len, slice, ◌++◌ as ◌<>◌}
use Prim.Native.Nat.{◌+◌, ◌-◌}
use mathlib.Core.Option.{none, some}
use mathlib.Core.Path.{◌≡◌, refl, sym}
use mathlib.Core.Bool.{Bool, true, false, ◌&&◌}
use native.Mathlib.Omega.{arith}
use text.Mathlib.Text.{is_lt, find?, ◌==◌}
use syncmesh.Common.Tests.{leb}
use text.Mathlib.TextEquality.{path_by_compare}
use text.Mathlib.TextPositions.{compare_refl}

abbrev pub str_lt : String → String → Bool
str_lt s t = is_lt (compare s t)

abbrev flip : Ordering → Ordering
flip Ordering.lt = Ordering.gt
flip Ordering.eq = Ordering.eq
flip Ordering.gt = Ordering.lt

flip_compare_ℕ : (m n : ℕ) → compare_ℕ n m ≡ flip (compare_ℕ m n)
flip_compare_ℕ m n = ground arith

flip-then : (o p : Ordering) → flip (then o p) ≡ then (flip o) (flip p)
flip-then Ordering.lt p = refl
flip-then Ordering.eq p = refl
flip-then Ordering.gt p = refl

flip-compare : (s t : String) → compare t s ≡ flip (compare s t)
flip-compare [] [] = refl
flip-compare [] (d ∷ t) = rw (compare.nil-cons d t) (compare.cons-nil d t)
flip-compare (c ∷ s) [] = rw (compare.cons-nil c s) (compare.nil-cons c s)
flip-compare (c ∷ s) (d ∷ t) =
    rw (compare.cons-cons d c t s, compare.cons-cons c d s t)
      (rw (flip_compare_ℕ (code c) (code d), flip-compare s t)
        (sym (flip-then (compare_ℕ (code c) (code d)) (compare s t))))

compare_trans :
    (s t u : String)
    → compare s t ≡ Ordering.lt
    → compare t u ≡ Ordering.lt
    → compare s u ≡ Ordering.lt
compare_trans [] [] u p q = q
compare_trans [] (d ∷ t) [] p q = ground (arith, compare.cons-nil d t)
compare_trans [] (d ∷ t) (e ∷ u) p q = compare.nil-cons e u
compare_trans (c ∷ s) [] u p q = ground (arith, compare.cons-nil c s)
compare_trans (c ∷ s) (d ∷ t) [] p q = ground (arith, compare.cons-nil d t)
compare_trans (c ∷ s) (d ∷ t) (e ∷ u) p q = ground (
  arith,
  compare.cons-cons c d s t,
  compare.cons-cons d e t u,
  compare.cons-cons c e s u,
  compare_trans s t u,
)

-- Irreflexive, transitive, and total up to equality.
pub str_lt_irrefl : (s : String) → str_lt s s ≡ false
str_lt_irrefl s = rw (compare_refl s)

pub str_lt_trans : (s t u : String) → str_lt s t ≡ true → str_lt t u ≡ true → str_lt s u ≡ true
str_lt_trans s t u p q = ground (arith, compare_trans s t u)

pub str_lt_antisymm : (s t : String) → str_lt s t ≡ false → str_lt t s ≡ false → s ≡ t
str_lt_antisymm s t p q = path_by_compare s t (ground (arith, flip-compare s t))

-- `≤` is the negation of the converse of `<`, and is transitive too.
pub str_le_trans : (s t u : String) → str_lt t s ≡ false → str_lt u t ≡ false → str_lt u s ≡ false
str_le_trans s t u p q =
    ground (arith, str_lt_trans u s t, str_lt_trans t u s, str_lt_antisymm s t, str_lt_antisymm t u)

-- `strings.Replace(s, old, new, 1)` for a text `old` that is not empty.
unfoldable pub replace_first : String → String → String → String
replace_first s old new = elim (find? s old) [
  | none ↦ s
  | some i ↦ slice s 0 i <> new <> slice s (i + len old) (len s)
]

pub str_lt_asymm : (s t : String) → str_lt s t ≡ true → str_lt t s ≡ false
str_lt_asymm s t p = ground (arith, flip-compare s t)

-- `strings.HasSuffix(s, suffix)`.
unfoldable pub ends_with : String → String → Bool
ends_with s suffix = leb (len suffix) (len s) && (slice s (len s - len suffix) (len s) == suffix)
