-- ===== src/Canon/Utf8.antt =====
-- `utf8.Valid` and `utf8.ValidString`, as an automaton over the bytes.
use tos_messenger.Base.{
  ℕ, suc, zero, Bool, true, false, ◌&&◌, Option, none, some, [], ◌∷◌, ltb, leb, ◌==◌, if◌then◌else◌,
  Bytes,
}

-- How many continuation bytes are wanted, and the range of the next one.
abbrev Pending : Type 0
Pending = ℕ × ℕ × ℕ

-- The first byte of an encoded code point. The narrowed ranges exclude overlong forms, surrogates
-- and values above U+10FFFF.
first_byte : ℕ → Option Pending
first_byte b =
    if ltb b 0x80
    then some (0, 0x80, 0xbf)
    else if leb 0xc2 b && leb b 0xdf
    then some (1, 0x80, 0xbf)
    else if b == 0xe0
    then some (2, 0xa0, 0xbf)
    else if b == 0xed
    then some (2, 0x80, 0x9f)
    else if leb 0xe1 b && leb b 0xef
    then some (2, 0x80, 0xbf)
    else if b == 0xf0
    then some (3, 0x90, 0xbf)
    else if leb 0xf1 b && leb b 0xf3
    then some (3, 0x80, 0xbf)
    else if b == 0xf4
    then some (3, 0x80, 0x8f)
    else none

next_byte : Option Pending → ℕ → Option Pending
unfolding first_byte
next_byte none b = none
next_byte (some (zero, lo, hi)) b = first_byte b
next_byte (some (suc n, lo, hi)) b = if leb lo b && leb b hi then some (n, 0x80, 0xbf) else none

scan : Option Pending → Bytes → Bool
unfolding next_byte
scan none [] = false
scan (some (zero, lo, hi)) [] = true
scan (some (suc n, lo, hi)) [] = false
scan state (b ∷ bs) = scan (next_byte state b) bs

unfoldable pub utf8_valid : Bytes → Bool
unfolding scan
utf8_valid bs = scan (some (0, 0x80, 0xbf)) bs
