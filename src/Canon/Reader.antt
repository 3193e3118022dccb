-- ===== src/Canon/Reader.antt =====
-- internal/canon/reader.go. A method of `*Reader` returns the new reader beside its result. `int`
-- is 64 bits wide, so a 32-bit length is no negative count, and a bound is not negative.
use tos_messenger.Base.{
  ℕ, ◌+◌, ◌*◌, ◌||◌, not, Option, none, some, [], ◌∷◌, ltb, ◌==◌, eq_bytes, is_some, if◌then◌else◌,
  Bytes, length, take, drop, Result, ok, err,
}
use tos_messenger.Canon.Hex.{hex_encode}
use tos_messenger.Canon.Utf8.{utf8_valid}

pub data ReadError : Type 0 where
  wrong_domain past_the_end over_its_bound not_utf8 not_32_bytes trailing_bytes : ReadError

pub record Reader : Type 0 where
  pub buffer : Bytes
  pub offset : ℕ
  pub failure : Option ReadError

-- NewReader
unfoldable pub new_reader : Bytes → Bytes → Reader
new_reader domain preimage =
    if ltb (length preimage) (length domain)
      || not (eq_bytes (take (length domain) preimage) domain)
    then record { buffer = preimage; offset = 0; failure = some wrong_domain }
    else record { buffer = preimage; offset = length domain; failure = none }

-- The first failure stays.
keep_first : Option ReadError → ReadError → Option ReadError
keep_first none e = some e
keep_first (some first) e = some first

unfoldable pub fail : ReadError → Reader → Reader
unfolding keep_first
fail e r = record r { failure = keep_first r.failure e }

-- take; `none` is the nil slice.
unfoldable pub take_bytes : ℕ → Reader → Reader × Option Bytes
unfolding fail
take_bytes count r =
    if is_some r.failure
    then (r, none)
    else if ltb (length r.buffer) (r.offset + count)
    then (fail past_the_end r, none)
    else (record r { offset = r.offset + count }, some (take count (drop r.offset r.buffer)))

-- binary.BigEndian
unfoldable pub big_endian : ℕ → Bytes → ℕ
big_endian acc [] = acc
big_endian acc (b ∷ bs) = big_endian (acc * 256 + b) bs

number_of : Option Bytes → ℕ
number_of none = 0
number_of (some raw) = big_endian 0 raw

unfoldable pub read_uint32 : Reader → Reader × ℕ
unfolding number_of
read_uint32 r = let (r', raw) = take_bytes 4 r in (r', number_of raw)

unfoldable pub read_uint64 : Reader → Reader × ℕ
unfolding number_of
read_uint64 r = let (r', raw) = take_bytes 8 r in (r', number_of raw)

unfoldable pub read_uint8 : Reader → Reader × ℕ
unfolding number_of
read_uint8 r = let (r', raw) = take_bytes 1 r in (r', number_of raw)

-- Bytes
unfoldable pub read_bytes : ℕ → Reader → Reader × Option Bytes
read_bytes maximum r =
    let (r', count) = read_uint32 r in
    if is_some r'.failure
    then (r', none)
    else if ltb maximum count
    then (fail over_its_bound r', none)
    else take_bytes count r'

unfoldable pub checked_text : Reader → Option Bytes → Reader × Bytes
unfolding fail
checked_text r none = (r, [])
checked_text r (some raw) = if utf8_valid raw then (r, raw) else (fail not_utf8 r, [])

-- Text
unfoldable pub read_text : ℕ → Reader → Reader × Bytes
unfolding checked_text
read_text maximum r = let (r', raw) = read_bytes maximum r in checked_text r' raw

unfoldable pub checked_hash : Reader → Option Bytes → Reader × Bytes
unfolding fail
checked_hash r none = (r, [])
checked_hash r (some raw) =
    if length raw == 32 then (r, hex_encode raw) else (fail not_32_bytes r, [])

-- Hash32
unfoldable pub read_hash32 : Reader → Reader × Bytes
unfolding checked_hash
read_hash32 r = let (r', raw) = read_bytes 32 r in checked_hash r' raw

-- Count
unfoldable pub read_count : ℕ → Reader → Reader × ℕ
read_count maximum r =
    let (r', count) = read_uint32 r in
    if is_some r'.failure
    then (r', 0)
    else if ltb maximum count
    then (fail over_its_bound r', 0)
    else (r', count)

-- Done
unfoldable pub done : Reader → Result ReadError (Unit {0})
done r = elim r.failure [
  | some e ↦ err e
  | none ↦ if r.offset == length r.buffer then ok tt else err trailing_bytes
]
