-- ===== src/Cluster/Hashing.antt =====
-- internal/cluster/manager.go, `IsLeaderForFile`: what the hash of a path is. `utf8` and `fnv32a` stand
-- against the tables of RFC 3629 and of the FNV-1a hash.
use mathlib.Core.List.{append_assoc, append-nil}
use Prim.Native.String.{[] as empty, ◌∷◌ as ◌::◌}
use Prim.Native.Char.{Char, code}
use Prim.Native.Nat.{bit_xor}
use syncmesh.Common.{
  ◌≡◌, sym, subst, ℕ, ◌+◌, ◌*◌, ◌/◌, ◌%◌, ◌≤◌, ◌<◌, String, List, [], ◌∷◌, ◌++◌, ltb, arith,
  Bool-cases, inl, inr,
}
use syncmesh.Cluster.Leadership.{utf8, bytes, fnv32a, file_hash}

-- The bytes of a code point: the leading byte and the following ones carry its digits to the base 64.
pub data Encodes : ℕ → List ℕ → Type 0 where
  one_byte : (c : ℕ) → c < 0x80 → Encodes c (c ∷ [])
  two_bytes :
      (c a b : ℕ)
      → c ≡ a * 64 + b
      → b < 64
      → 0x80 ≤ c
      → c < 0x800
      → Encodes c ((0xc0 + a) ∷ (0x80 + b) ∷ [])
  three_bytes :
      (c a b d : ℕ)
      → c ≡ (a * 64 + b) * 64 + d
      → b < 64
      → d < 64
      → 0x800 ≤ c
      → c < 0x1_0000
      → Encodes c ((0xe0 + a) ∷ (0x80 + b) ∷ (0x80 + d) ∷ [])
  four_bytes :
      (c a b d e : ℕ)
      → c ≡ ((a * 64 + b) * 64 + d) * 64 + e
      → b < 64
      → d < 64
      → e < 64
      → 0x1_0000 ≤ c
      → Encodes c ((0xf0 + a) ∷ (0x80 + b) ∷ (0x80 + d) ∷ (0x80 + e) ∷ [])

-- The bytes of a text are those of its characters, one after the other.
pub data IsEncoded : String → List ℕ → Type 0 where
  nothing : IsEncoded "" []
  character :
      {s : String} {bs cs : List ℕ} (c : Char)
      → Encodes (code c) bs
      → IsEncoded s cs
      → IsEncoded (c :: s) (bs ++ cs)

-- The FNV-1a hash of some bytes: the offset basis, and for each further byte its exclusive or with the
-- hash so far, times the prime, in 32 bits.
pub data HasHash : List ℕ → ℕ → Type 0 where
  offset_basis : HasHash [] 2166136261
  next_byte :
      {bs : List ℕ} {h : ℕ} (b : ℕ)
      → HasHash bs h
      → HasHash (bs ++ b ∷ []) (bit_xor h b * 16777619 % 4294967296)

utf8-Encodes : (c : ℕ) → Encodes c (utf8 c)
unfolding utf8
utf8-Encodes c = elim (Bool-cases (ltb c 0x80)) [
  | inl t ↦ rw t (Encodes.one_byte c (ground (arith, t)))
  | inr t ↦ elim (Bool-cases (ltb c 0x800)) [
    | inl u ↦
        rw (t, u)
          (Encodes.two_bytes c (c / 64) (c % 64) (omega arith) (omega arith) (ground (arith, t))
            (ground (arith, u)))
    | inr u ↦ elim (Bool-cases (ltb c 0x1_0000)) [
      | inl v ↦
          rw (t, u, v)
            (Encodes.three_bytes c (c / 4096) (c / 64 % 64) (c % 64) (omega arith) (omega arith)
              (omega arith) (ground (arith, u)) (ground (arith, v)))
      | inr v ↦
          rw (t, u, v)
            (Encodes.four_bytes c (c / 262144) (c / 4096 % 64) (c / 64 % 64) (c % 64) (omega arith)
              (omega arith) (omega arith) (omega arith) (ground (arith, v)))
    ]
  ]
]

bytes-IsEncoded : (s : String) → IsEncoded s (bytes s)
unfolding bytes
bytes-IsEncoded empty = IsEncoded.nothing
bytes-IsEncoded (c :: s) = IsEncoded.character c (utf8-Encodes (code c)) (bytes-IsEncoded s)

fnv32a-HasHash : (bs cs : List ℕ) (h : ℕ) → HasHash bs h → HasHash (bs ++ cs) (fnv32a h cs)
unfolding fnv32a
fnv32a-HasHash bs [] h so = subst (λ (ds : List ℕ). HasHash ds h) (sym (append-nil bs)) so
fnv32a-HasHash bs (c ∷ cs) h so =
    subst (λ (ds : List ℕ). HasHash ds (fnv32a h (c ∷ cs))) (append_assoc bs (c ∷ []) cs)
      (fnv32a-HasHash (bs ++ c ∷ []) cs _ (HasHash.next_byte c so))

-- The bytes of a path, and their hash.
pub file_hash-HasHash :
    (path : String) → (bs : List ℕ) × IsEncoded path bs × HasHash bs (file_hash path)
unfolding file_hash
file_hash-HasHash path =
    (bytes path, bytes-IsEncoded path, fnv32a-HasHash [] (bytes path) _ HasHash.offset_basis)
