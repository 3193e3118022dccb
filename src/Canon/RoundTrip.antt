-- ===== src/Canon/RoundTrip.antt =====
-- What canon.go writes, reader.go reads back.
use tos_messenger.Base.{
  ◌∙◌, ℕ, ◌+◌, ◌*◌, ◌/◌, ◌%◌, ◌^◌, ◌≤◌, ◌<◌, ◌≡◌, refl, ap, sym, true, false, none, some, [], ◌∷◌,
  ◌++◌, append_assoc, arith, ltb, ◌==◌, Bytes, length, take, drop, length-append, take-append,
  drop-append, ok, is_hash, is_lower_hex, all, u32, and-eq-true,
}
use tos_messenger.Canon.Hex.{hex_encode, hex_encode-hex_decode}
use tos_messenger.Canon.Utf8.{utf8_valid}
use tos_messenger.Canon.Encode.{uint32, uint64, bytes, text, hash32}
use tos_messenger.Canon.Reader.{
  checked_hash, checked_text, Reader, take_bytes, read_uint32, read_uint64, read_bytes, read_text,
  read_hash32, big_endian, read_uint8, read_count,
}

-- A reader that has read `before` and has `rest` in front of it.
abbrev pub reader_at : Bytes → Bytes → Reader
reader_at before rest = record { buffer = before ++ rest; offset = length before; failure = none }

fits :
    (before mid rest : Bytes)
    → ltb (length (before ++ (mid ++ rest))) (length before + length mid) ≡ false
fits before mid rest = ground (arith, length-append before (mid ++ rest), length-append mid rest)

take-at :
    (before mid rest : Bytes)
    → take (length mid) (drop (length before) (before ++ (mid ++ rest))) ≡ mid
take-at before mid rest = rw (drop-append before (mid ++ rest)) (take-append mid rest)

reader_at_eq :
    (before mid rest : Bytes) (n : ℕ)
    → n ≡ length mid
    → ◌≡◌ {A = Reader}
        (record { buffer = before ++ (mid ++ rest); offset = length before + n; failure = none })
        (reader_at (before ++ mid) rest)
reader_at_eq before mid rest n e =
    rw (append_assoc before mid rest, length-append before mid, e) refl

-- Reading as many bytes as were written gives those bytes and stops behind them.
pub take_bytes-at :
    (before mid rest : Bytes) (n : ℕ)
    → n ≡ length mid
    → take_bytes n (reader_at before (mid ++ rest)) ≡ (reader_at (before ++ mid) rest, some mid)
unfolding take_bytes
take_bytes-at before mid rest n e =
    rw (e, fits before mid rest)
      λ i. (reader_at_eq before mid rest (length mid) refl i, some (take-at before mid rest i))

big_endian-append :
    (acc : ℕ) (xs ys : Bytes) → big_endian acc (xs ++ ys) ≡ big_endian (big_endian acc xs) ys
unfolding big_endian
big_endian-append acc [] ys = refl
big_endian-append acc (x ∷ xs) ys = big_endian-append (acc * 256 + x) xs ys

big_endian-uint32 : (acc v : ℕ) → v < 2 ^ 32 → big_endian acc (uint32 v) ≡ acc * 2 ^ 32 + v
unfolding big_endian uint32
big_endian-uint32 acc v h = omega arith

pub big_endian-uint32_zero : (v : ℕ) → v < 2 ^ 32 → big_endian 0 (uint32 v) ≡ v
big_endian-uint32_zero v h = omega (arith, big_endian-uint32 0 v h)

pub u32-length : (value : Bytes) → length value < 2 ^ 32 → u32 (length value) ≡ length value
u32-length value h = omega arith

pub big_endian-uint64 : (v : ℕ) → v < 2 ^ 64 → big_endian 0 (uint64 v) ≡ v
unfolding uint64
big_endian-uint64 v h =
    rw
      (
        big_endian-append 0 (uint32 (v / 2 ^ 32)) (uint32 (v % 2 ^ 32)),
        big_endian-uint32 0 (v / 2 ^ 32) (omega arith),
        big_endian-uint32 (0 * 2 ^ 32 + v / 2 ^ 32) (v % 2 ^ 32) (omega arith),
      )
      (omega arith)

pub length-uint32 : (v : ℕ) → length (uint32 v) ≡ 4
unfolding uint32
length-uint32 v = refl

pub length-uint64 : (v : ℕ) → length (uint64 v) ≡ 8
unfolding uint64 uint32
length-uint64 v = refl

not_over : (maximum n : ℕ) → n ≤ maximum → ltb maximum n ≡ false
not_over maximum n h = ground arith

-- The 32-bit integer that was written is read back.
pub read_uint32-uint32 :
    (before rest : Bytes) (v : ℕ)
    → v < 2 ^ 32
    → read_uint32 (reader_at before (uint32 v ++ rest)) ≡ (reader_at (before ++ uint32 v) rest, v)
unfolding read_uint32
read_uint32-uint32 before rest v h =
    rw (take_bytes-at before (uint32 v) rest 4 (sym (length-uint32 v)), big_endian-uint32_zero v h)
      refl

-- The 64-bit integer that was written is read back.
pub read_uint64-uint64 :
    (before rest : Bytes) (v : ℕ)
    → v < 2 ^ 64
    → read_uint64 (reader_at before (uint64 v ++ rest)) ≡ (reader_at (before ++ uint64 v) rest, v)
unfolding read_uint64
read_uint64-uint64 before rest v h =
    rw (take_bytes-at before (uint64 v) rest 8 (sym (length-uint64 v)), big_endian-uint64 v h) refl

-- A byte is read back.
pub read_uint8-byte :
    (before rest : Bytes) (v : ℕ)
    → read_uint8 (reader_at before (v ∷ rest)) ≡ (reader_at (before ++ (v ∷ [])) rest, v)
unfolding read_uint8
read_uint8-byte before rest v =
    let one : big_endian 0 (v ∷ []) ≡ v = unfold big_endian in omega arith in
    rw (take_bytes-at before (v ∷ []) rest 1 refl, one) refl

-- A count within the reader's bound is read back.
pub read_count-uint32 :
    (before rest : Bytes) (maximum v : ℕ)
    → v < 2 ^ 32
    → v ≤ maximum
    → read_count maximum (reader_at before (uint32 v ++ rest))
      ≡ (reader_at (before ++ uint32 v) rest, v)
unfolding read_count
read_count-uint32 before rest maximum v h le =
    rw (read_uint32-uint32 before rest v h, not_over maximum v le) refl

-- A byte slice within the reader's bound is read back.
pub read_bytes-bytes :
    (before rest : Bytes) (maximum : ℕ) (value : Bytes)
    → length value < 2 ^ 32
    → length value ≤ maximum
    → read_bytes maximum (reader_at before (bytes value ++ rest))
      ≡ (reader_at (before ++ bytes value) rest, some value)
unfolding read_bytes bytes
read_bytes-bytes before rest maximum value h le =
    let n = length value in
    rw
      (
        u32-length value h,
        append_assoc (uint32 n) value rest,
        read_uint32-uint32 before (value ++ rest) n h,
        not_over maximum n le,
        take_bytes-at (before ++ uint32 n) value rest n refl,
        append_assoc before (uint32 n) value,
      )
      refl

pub bytes-text : (value : Bytes) → bytes value ≡ text value
unfolding bytes text
bytes-text value = refl

read_text_of_bytes :
    (maximum : ℕ) (r r' : Reader) (value : Bytes)
    → read_bytes maximum r ≡ (r', some value)
    → utf8_valid value ≡ true
    → read_text maximum r ≡ (r', value)
unfolding read_text checked_text
read_text_of_bytes maximum r r' value e valid =
    ap (λ p. checked_text p.0 p.1) e ∙ rw (checked_text, valid) refl

-- A text within the reader's bound is read back.
pub read_text-text :
    (before rest : Bytes) (maximum : ℕ) (value : Bytes)
    → length value < 2 ^ 32
    → length value ≤ maximum
    → utf8_valid value ≡ true
    → read_text maximum (reader_at before (text value ++ rest))
      ≡ (reader_at (before ++ text value) rest, value)
read_text-text before rest maximum value h le valid =
    read_text_of_bytes maximum _ _ value
      (rw (← bytes-text value) (read_bytes-bytes before rest maximum value h le)) valid

pub bytes_of_hash32 :
    (value : Bytes)
    → is_hash value ≡ true
    → (raw : Bytes) × (hash32 value ≡ ok (bytes raw)) × (hex_encode raw ≡ value) × (length raw ≡ 32)
unfolding hash32 is_hash
bytes_of_hash32 value h =
    let (n, lower) = and-eq-true (length value == 64) (all is_lower_hex value) h in
    let (raw, decoded, encoded, size) = hex_encode-hex_decode 32 value (ground arith) lower in
    (raw, rw (h, decoded, size) refl, encoded, size)

read_hash32_of_bytes :
    (r r' : Reader) (raw : Bytes)
    → read_bytes 32 r ≡ (r', some raw)
    → length raw ≡ 32
    → read_hash32 r ≡ (r', hex_encode raw)
unfolding read_hash32 checked_hash
read_hash32_of_bytes r r' raw e size =
    ap (λ p. checked_hash p.0 p.1) e ∙ rw (checked_hash, size) refl

-- A hash in lower-case hexadecimal is written in 32 bytes and read back as it was.
pub read_hash32-hash32 :
    (before rest value field : Bytes)
    → is_hash value ≡ true
    → hash32 value ≡ ok field
    → read_hash32 (reader_at before (field ++ rest)) ≡ (reader_at (before ++ field) rest, value)
read_hash32-hash32 before rest value field valid h =
    let (raw, written, encoded, size) = bytes_of_hash32 value valid in
    let e : field ≡ bytes raw = ground arith in
    rw (e, ← encoded)
      (read_hash32_of_bytes _ _ raw
        (read_bytes-bytes before rest 32 raw (omega arith) (omega arith)) size)
