-- ===== src/Canon/Encode.antt =====
-- internal/canon/canon.go
use tos_messenger.Base.{
  ℕ, ◌/◌, ◌%◌, ◌^◌, Bool, true, false, ◌&&◌, Option, none, some, [], ◌∷◌, ◌++◌, ◌≡◌, if◌then◌else◌,
  Bytes, codes, length, all, All, ◌==◌, not, is_hash, is_prefixed_hash, strip_prefix, Result, ok,
  err, u32,
}
use tos_messenger.Canon.Hex.{hex_encode, hex_decode, IsByte}

-- crypto/sha256, a parameter: a function from bytes to 32 bytes.
pub record Hash : Type 0 where
  pub sum : Bytes → Bytes
  pub sum_length : (b : Bytes) → length (sum b) ≡ 32
  pub sum_bytes : (b : Bytes) → All IsByte (sum b)

pub data CanonError : Type 0 where
  invalid_hash : CanonError

-- binary.BigEndian.PutUint32 and PutUint64 of a value below 2 ^ 32 and 2 ^ 64.
unfoldable pub uint32 : ℕ → Bytes
uint32 v = (v / 2 ^ 24 % 256) ∷ (v / 2 ^ 16 % 256) ∷ (v / 2 ^ 8 % 256) ∷ (v % 256) ∷ []

unfoldable pub uint64 : ℕ → Bytes
unfolding uint32
uint64 v = uint32 (v / 2 ^ 32) ++ uint32 (v % 2 ^ 32)

-- `Bytes`, and `Text`, which writes the same for a string's bytes.
unfoldable pub bytes : Bytes → Bytes
bytes value = uint32 (u32 (length value)) ++ value

unfoldable pub text : Bytes → Bytes
text value = uint32 (u32 (length value)) ++ value

hash32_field : Option Bytes → Result CanonError Bytes
hash32_field none = err invalid_hash
hash32_field (some raw) = if length raw == 32 then ok (bytes raw) else err invalid_hash

unfoldable pub hash32 : Bytes → Result CanonError Bytes
unfolding hash32_field
hash32 value = if is_hash value then hash32_field (hex_decode value) else err invalid_hash

unfoldable pub bool : Bool → Bytes
bool true = 1 ∷ []
bool false = 0 ∷ []

abbrev pub sha256_prefix : Bytes
sha256_prefix = codes "sha256:"

module _ ⦃h : Hash⦄ where
  unfoldable pub digest : Bytes → Bytes
  digest preimage = sha256_prefix ++ hex_encode (h.sum preimage)

-- `bytes.Equal(value, make([]byte, len(value)))`
unfoldable pub is_zero : Bytes → Bool
is_zero value = all (λ b. b == 0) value

digest_is_set : Option Bytes → Bool
digest_is_set none = false
digest_is_set (some raw) = not (is_zero raw)

-- The decoded digest of a matching string has 32 bytes, so comparing it with 32 zero bytes is
-- `is_zero`.
hex_part : Option Bytes → Option Bytes
hex_part none = none
hex_part (some hex) = hex_decode hex

unfoldable pub valid_digest : Bytes → Bool
unfolding hex_part digest_is_set is_zero
valid_digest value =
    is_prefixed_hash sha256_prefix value
    && digest_is_set (hex_part (strip_prefix sha256_prefix value))
