-- ===== src/Common/Orders.antt =====
-- Two orders in which a map may be visited differ by a permutation.
use mathlib.Core.Path.{◌≡◌, refl, sym, ◌∙◌, ap}
use mathlib.Core.Logic.{inl, inr, ∥∥₁_elim}
use native.Mathlib.Nat.{ℕ_set}
use Prim.Native.Nat.{suc}
use mathlib.Core.Option.{none, some}
use mathlib.Core.List.{List, [], ◌∷◌, Perm, Permᴰ}
use mathlib.Core.List.Perm
use native.Mathlib.Omega.{arith}
use Prim.Native.String.{String}
use text.Mathlib.TextEquality.{eq_iff}
use text.Mathlib.TextPositions.{eq_refl}
use syncmesh.Common.Tests.{text_cases, length}
use syncmesh.Common.Maps.{
  Map, lookup, erase, lookup-erase, HasDistinctKeys, erase-HasDistinctKeys, Enumerates,
}

module _ {V : Type 0} where
  erase_missing : (k : String) (m : Map V) → lookup k m ≡ none → erase k m ≡ m
  unfolding erase lookup
  erase_missing k [] e = refl
  erase_missing k ((j, v) ∷ m) e = ground (arith, e, erase_missing k m)

  -- The entry of a key can be taken to the front.
  front :
      (k : String) (v : V) (m : Map V)
      → HasDistinctKeys m
      → lookup k m ≡ some v
      → Perm ((k, v) ∷ erase k m) m
  unfolding erase lookup
  front k v [] d e = absurd (ground (arith, e))
  front k v ((j, w) ∷ m) (fresh, d) e = elim (text_cases j k) [
    | inl (t, same) ↦
        let gone = erase_missing k m (ap (λ (i : String). lookup i m) (sym same) ∙ fresh) in
        let its : v ≡ w = ground (arith, rw t at e) in
        rw (t, gone, its, same) (Perm.refl ((k, w) ∷ m))
    | inr (t, _) ↦ rw t (
        Perm.trans (Perm.swap (j, w) (k, v) (erase k m))
          (Perm.cons (j, w) (front k v m d (rw t at e))))
  ]

  same_lookups-Perm :
      (m n : Map V)
      → HasDistinctKeys m
      → HasDistinctKeys n
      → ((k : String) → lookup k m ≡ lookup k n)
      → Perm m n
  unfolding lookup
  same_lookups-Perm [] [] d e same = Perm.nil
  same_lookups-Perm [] ((k, v) ∷ n) d e same = absurd (ground (arith, eq_refl k, same k))
  same_lookups-Perm ((k, v) ∷ m) n (fresh, d) e same =
      let found : lookup k n ≡ some v = sym (same k) ∙ rw (eq_refl k) refl in
      let left : (j : String) → lookup j m ≡ lookup j (erase k n) =
        λ j. ground (arith, eq_iff k j, lookup-erase k j n, same j) in
      Perm.trans
        (Perm.cons (k, v) (same_lookups-Perm m (erase k n) d (erase-HasDistinctKeys k n e) left))
        (front k v n e found)

  pub Enumerates-Perm :
      (visited again m : Map V) → Enumerates visited m → Enumerates again m → Perm visited again
  Enumerates-Perm visited again m (d, same) (e, also) =
      same_lookups-Perm visited again d e (λ k. same k ∙ sym (also k))

length-Permᴰ : {A : Type 0} {xs ys : List A} → Permᴰ xs ys → length xs ≡ length ys
length-Permᴰ Permᴰ.nil = refl
length-Permᴰ (Permᴰ.cons e p) = ap suc (length-Permᴰ p)
length-Permᴰ (Permᴰ.swap e f) = refl
length-Permᴰ (Permᴰ.trans p q) = length-Permᴰ p ∙ length-Permᴰ q

pub length-perm : {A : Type 0} (xs ys : List A) → Perm xs ys → length xs ≡ length ys
length-perm xs ys p = ∥∥₁_elim p (ℕ_set (length xs) (length ys)) length-Permᴰ
