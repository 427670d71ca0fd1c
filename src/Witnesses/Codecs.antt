-- ===== src/Witnesses/Codecs.antt =====
-- A codec for the tests: it marshals the messages whose texts stand in a table and that have no
-- metadata.
use syncmesh.Common.{
  ◌≡◌, refl, sym, ap, subst, Bool-cases, ℕ, zero, suc, String, Bool, true, false, Option, none,
  some, maybe, List, [], ◌∷◌, ◌==◌, eq_iff, ℤ, pos, negsuc, Map, lookup, inl, inr, arith,
  if◌then◌else◌,
}
use syncmesh.FileSync.State.{Bytes, FileSyncMessage}
use syncmesh.FileSync.Messages.{Codec, IsCodec}

-- The text of a code, and the code of a text.
abbrev pub text_at : ℕ → String
text_at zero = ""
text_at (suc zero) = "file_event"
text_at (suc (suc zero)) = "file_request"
text_at (suc (suc (suc zero))) = "file_response"
text_at (suc (suc (suc (suc zero)))) = "/app/data/f"
text_at (suc (suc (suc (suc (suc zero))))) = "sum"
text_at (suc (suc (suc (suc (suc (suc zero)))))) = "a"
text_at (suc (suc (suc (suc (suc (suc (suc zero))))))) = "b"
text_at (suc (suc (suc (suc (suc (suc (suc (suc n)))))))) = "other"

abbrev pub code_from : ℕ → ℕ → String → Option ℕ
code_from zero i s = none
code_from (suc n) i s =
    let later = code_from n (suc i) s in if text_at i == s then some i else later

code_from_lem : (n i c : ℕ) (s : String) → code_from n i s ≡ some c → text_at c ≡ s
code_from_lem zero i c s h = cc
code_from_lem (suc n) i c s h = ground (arith, eq_iff (text_at i) s, code_from_lem n (suc i) c s)

abbrev pub whole : ℕ → ℕ → ℤ
whole zero n = pos n
whole (suc _) n = negsuc n

abbrev pub sign : ℤ → ℕ
sign (pos n) = 0
sign (negsuc n) = 1

abbrev pub size_of : ℤ → ℕ
size_of (pos n) = n
size_of (negsuc n) = n

whole_lem : (z : ℤ) → whole (sign z) (size_of z) ≡ z
whole_lem (pos n) = refl
whole_lem (negsuc n) = refl

abbrev pub code : String → Option ℕ
code s = code_from 9 0 s

code_lem : (c : ℕ) (s : String) → code s ≡ some c → text_at c ≡ s
code_lem c s h = code_from_lem 9 0 c s h

abbrev pub has_entries : {A : Type 0} → List A → Bool
has_entries [] = false
has_entries (_ ∷ _) = true

abbrev pub row : FileSyncMessage → ℕ → ℕ → ℕ → ℕ → Bytes
row msg type path checksum from_peer =
    type
    ∷ path
    ∷ checksum
    ∷ from_peer
    ∷ sign msg.size
    ∷ size_of msg.size
    ∷ sign msg.timestamp
    ∷ size_of msg.timestamp
    ∷ msg.version
    ∷ msg.file_data

abbrev pub marshal : FileSyncMessage → Option Bytes
marshal msg = maybe (code msg.type) none λ type. maybe (code msg.file_path) none λ path.
    maybe (code msg.checksum) none λ checksum. maybe (code msg.from_peer) none λ from_peer.
      if has_entries msg.metadata then none else some (row msg type path checksum from_peer)

abbrev pub unmarshal : Bytes → Option FileSyncMessage
unmarshal (type ∷ path ∷ checksum ∷ from_peer ∷ s ∷ n ∷ u ∷ k ∷ version ∷ file_data) = some record {
  type = text_at type;
  file_path = text_at path;
  file_data = file_data;
  checksum = text_at checksum;
  size = whole s n;
  timestamp = whole u k;
  from_peer = text_at from_peer;
  version = version;
  metadata = [];
}
unmarshal _ = none

maybe-some :
    {A B : Type 0} (o : Option A) (f : A → Option B) (b : B)
    → maybe o none f ≡ some b
    → (a : A) × (o ≡ some a) × (f a ≡ some b)
maybe-some none f b h = absurd (ground arith)
maybe-some (some a) f b h = (a, refl, h)

unmarshal-row :
    (msg : FileSyncMessage) (type path checksum from_peer : ℕ)
    → text_at type ≡ msg.type
    → text_at path ≡ msg.file_path
    → text_at checksum ≡ msg.checksum
    → text_at from_peer ≡ msg.from_peer
    → unmarshal (row msg type path checksum from_peer) ≡ some (record msg { metadata = [] })
unmarshal-row msg type path checksum from_peer e₁ e₂ e₃ e₄ =
    rw (e₁, e₂, e₃, e₄, whole_lem msg.size, whole_lem msg.timestamp) refl

abbrev stored : FileSyncMessage → ℕ → ℕ → ℕ → ℕ → Option Bytes
stored msg type path checksum from_peer =
    if has_entries msg.metadata then none else some (row msg type path checksum from_peer)

no_code :
    (msg : FileSyncMessage) (type path checksum from_peer : ℕ) (bytes : Bytes)
    → has_entries msg.metadata ≡ true
    → stored msg type path checksum from_peer ≡ some bytes
    → ⊥
no_code msg type path checksum from_peer bytes full h = ground arith

row_of :
    (msg : FileSyncMessage) (type path checksum from_peer : ℕ) (bytes : Bytes)
    → has_entries msg.metadata ≡ false
    → stored msg type path checksum from_peer ≡ some bytes
    → row msg type path checksum from_peer ≡ bytes
row_of msg type path checksum from_peer bytes clear h = ground arith

empty_of : {A : Type 0} (xs : List A) → has_entries xs ≡ false → xs ≡ []
empty_of [] h = refl
empty_of (x ∷ xs) h = absurd (ground arith)

abbrev pub toy_codec : Codec
toy_codec = record { marshal = marshal; unmarshal = unmarshal }

pub toy_codec-IsCodec : IsCodec toy_codec
toy_codec-IsCodec = record { unmarshal-marshal = law }
  where
    law :
        (msg : FileSyncMessage) (bytes : Bytes)
        → marshal msg ≡ some bytes
        → (metadata : Map String) × (unmarshal bytes ≡ some (record msg { metadata = metadata }))
          × ((k : String) → lookup k metadata ≡ lookup k msg.metadata)
    law msg bytes e =
        let (type, e₁, r₁) = maybe-some (code msg.type) _ bytes e in
        let (path, e₂, r₂) = maybe-some (code msg.file_path) _ bytes r₁ in
        let (checksum, e₃, r₃) = maybe-some (code msg.checksum) _ bytes r₂ in
        let (from_peer, e₄, r₄) = maybe-some (code msg.from_peer) _ bytes r₃ in
        elim (Bool-cases (has_entries msg.metadata)) [
          | inl full ↦ absurd (no_code msg type path checksum from_peer bytes full r₄)
          | inr clear ↦ (
            [],
            subst (λ b. unmarshal b ≡ some (record msg { metadata = [] }))
                (row_of msg type path checksum from_peer bytes clear r₄)
                (unmarshal-row msg type path checksum from_peer (code_lem type msg.type e₁)
                  (code_lem path msg.file_path e₂) (code_lem checksum msg.checksum e₃)
                  (code_lem from_peer msg.from_peer e₄)),
            λ k. ap (lookup k) (sym (empty_of msg.metadata clear)),
          )
        ]
