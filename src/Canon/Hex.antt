-- ===== src/Canon/Hex.antt =====
-- Lower-case hexadecimal, as `encoding/hex` writes and reads it.
use tos_messenger.Base.{
  and-eq-true, ℕ, zero, suc, ◌+◌, ◌*◌, ◌-◌, ◌/◌, ◌%◌, ◌<◌, ◌≡◌, refl, ap, true, ◌&&◌, Option, none,
  some, [], ◌∷◌, arith, ltb, leb, if◌then◌else◌, Bytes, length, all, All, is_lower_hex,
}

hex_char : ℕ → ℕ
hex_char n = if ltb n 10 then 48 + n else 87 + n

-- hex.EncodeToString
unfoldable pub hex_encode : Bytes → Bytes
unfolding hex_char
hex_encode [] = []
hex_encode (b ∷ bs) = hex_char (b / 16) ∷ hex_char (b % 16) ∷ hex_encode bs

-- The value of a hexadecimal digit of either case.
hex_value : ℕ → Option ℕ
hex_value c =
    if leb 48 c && leb c 57
    then some (c - 48)
    else if leb 97 c && leb c 102
    then some (c - 87)
    else if leb 65 c && leb c 70
    then some (c - 55)
    else none

push_byte : Option ℕ → Option ℕ → Option Bytes → Option Bytes
push_byte (some h) (some l) (some bs) = some ((h * 16 + l) ∷ bs)
push_byte _ _ _ = none

-- hex.DecodeString; `none` is its error.
unfoldable pub hex_decode : Bytes → Option Bytes
unfolding hex_value push_byte
hex_decode [] = some []
hex_decode (c ∷ []) = none
hex_decode (c ∷ d ∷ s) = push_byte (hex_value c) (hex_value d) (hex_decode s)

abbrev pub IsByte : ℕ → Type 0
IsByte b = b < 256

abbrev pub IsLowerHex : ℕ → Type 0
IsLowerHex c = is_lower_hex c ≡ true

hex_value-hex_char : (n : ℕ) → n < 16 → hex_value (hex_char n) ≡ some n
unfolding hex_value hex_char
hex_value-hex_char n h = ground arith

-- Decoding what was encoded gives the bytes back.
pub hex_decode-hex_encode : (bs : Bytes) → All IsByte bs → hex_decode (hex_encode bs) ≡ some bs
unfolding push_byte hex_decode hex_encode
hex_decode-hex_encode [] h = refl
hex_decode-hex_encode (b ∷ bs) h =
    rw
      (
        hex_value-hex_char (b / 16) (omega arith),
        hex_value-hex_char (b % 16) (omega arith),
        hex_decode-hex_encode bs h.1,
        push_byte,
      )
      (ap (λ n. some (n ∷ bs)) (omega arith))

hex_char-hex_value :
    (c n : ℕ) → is_lower_hex c ≡ true → hex_value c ≡ some n → (hex_char n ≡ c) × (n < 16)
unfolding hex_value hex_char is_lower_hex
hex_char-hex_value c n h e = ground arith

hex_value-total :
    (c : ℕ) → is_lower_hex c ≡ true → (n : ℕ) × (hex_value c ≡ some n) × (hex_char n ≡ c) × (n < 16)
unfolding hex_value hex_char is_lower_hex
hex_value-total c h =
    (if leb c 57 then c - 48 else c - 87, ground arith, ground arith, ground arith)

hex_byte_high : (x y : ℕ) → y < 16 → (x * 16 + y) / 16 ≡ x
hex_byte_high x y h = omega arith

hex_byte_low : (x y : ℕ) → y < 16 → (x * 16 + y) % 16 ≡ y
hex_byte_low x y h = omega arith

-- A lower-case string of 2n hexadecimal digits decodes to n bytes, which encode to it again.
pub hex_encode-hex_decode :
    (n : ℕ) (s : Bytes)
    → length s ≡ n * 2
    → all is_lower_hex s ≡ true
    → (bs : Bytes) × (hex_decode s ≡ some bs) × (hex_encode bs ≡ s) × (length bs ≡ n)
unfolding push_byte hex_decode hex_encode
hex_encode-hex_decode zero [] e h = ([], refl, refl, refl)
hex_encode-hex_decode zero (c ∷ s) e h = absurd (omega arith)
hex_encode-hex_decode (suc n) [] e h = absurd (omega arith)
hex_encode-hex_decode (suc n) (c ∷ []) e h = absurd (omega arith)
hex_encode-hex_decode (suc n) (c ∷ d ∷ s) e h =
    let (hc, hds) = and-eq-true (is_lower_hex c) (all is_lower_hex (d ∷ s)) h in
    let (hd, hs) = and-eq-true (is_lower_hex d) (all is_lower_hex s) hds in
    let (x, px, cx, bx) = hex_value-total c hc in
    let (y, py, cy, by) = hex_value-total d hd in
    let (bs, pbs, ebs, lbs) = hex_encode-hex_decode n s (omega arith) hs in
    (
      (x * 16 + y) ∷ bs,
      rw (px, py, pbs, push_byte) refl,
      rw (hex_byte_high x y by, hex_byte_low x y by, cx, cy, ebs) refl,
      ap suc lbs,
    )
