-- ===== src/Base/Patterns.antt =====
-- What the anchored regular expressions of the source decide, by recursion on the bytes.
use Prim.Native.Nat.{ℕ, ◌+◌, ◌≤◌}
use mathlib.Core.Path.{◌≡◌, refl, ap, ◌∙◌}
use native.Mathlib.Omega.{arith}
use mathlib.Core.Bool.{Bool, true, false, ◌&&◌, ◌||◌}
use mathlib.Core.Option.{Option, none, some}
use mathlib.Core.List.{[], ◌∷◌}
use tos_messenger.Base.Tests.{leb, ◌==◌, if◌then◌else◌}
use tos_messenger.Base.Lists.{length, all, length-append}
use tos_messenger.Base.Strings.{Bytes, strip_prefix, append_of_strip_prefix}

unfoldable pub is_digit : ℕ → Bool
is_digit c = leb 48 c && leb c 57

pub is_lower : ℕ → Bool
is_lower c = leb 97 c && leb c 122

-- `[0-9a-f]`
unfoldable pub is_lower_hex : ℕ → Bool
unfolding is_digit
is_lower_hex c = is_digit c || (leb 97 c && leb c 102)

is_alphanumeric : ℕ → Bool
unfolding is_digit is_lower
is_alphanumeric c = is_digit c || is_lower c

-- `^[0-9a-f]{64}$`
unfoldable pub is_hash : Bytes → Bool
unfolding is_lower_hex
is_hash s = (length s == 64) && all is_lower_hex s

hash_rest : Option Bytes → Bool
unfolding is_hash
hash_rest none = false
hash_rest (some s) = is_hash s

-- `^prefix[0-9a-f]{64}$`
unfoldable pub is_prefixed_hash : Bytes → Bytes → Bool
unfolding hash_rest
is_prefixed_hash prefix s = hash_rest (strip_prefix prefix s)

-- `[1-9][0-9]{0,77}` from its first byte on, or `0`.
unfoldable pub is_atomic : Bytes → Bool
unfolding is_digit
is_atomic [] = false
is_atomic (c ∷ []) = is_digit c
is_atomic (c ∷ d ∷ r) = leb 49 c && leb c 57 && all is_digit (d ∷ r) && leb (length (c ∷ d ∷ r)) 78

-- The rest of `^[a-z][a-z0-9]*(\.[a-z0-9]+)*$`; the flag says that a dot was just read.
class_rest : Bool → Bytes → Bool
unfolding is_alphanumeric
class_rest after_dot [] = if after_dot then false else true
class_rest after_dot (c ∷ r) =
    let rest = class_rest (c == 46) r in
    if c == 46 then (if after_dot then false else rest) else is_alphanumeric c && rest

unfoldable pub is_capability_class : Bytes → Bool
unfolding class_rest is_lower
is_capability_class [] = false
is_capability_class (c ∷ r) = is_lower c && class_rest false r

is_tool_byte : ℕ → Bool
unfolding is_alphanumeric
is_tool_byte c = is_alphanumeric c || c == 95 || c == 45

-- `^[a-z][a-z0-9_-]{0,63}$`
unfoldable pub is_tool_name : Bytes → Bool
unfolding is_tool_byte is_lower
is_tool_name [] = false
is_tool_name (c ∷ r) = is_lower c && all is_tool_byte r && leb (length r) 63

pub length_of_is_hash : (s : Bytes) → is_hash s ≡ true → length s ≡ 64
unfolding is_hash
length_of_is_hash s h = ground arith

pub length_of_is_prefixed_hash :
    (prefix s : Bytes) → is_prefixed_hash prefix s ≡ true → length s ≡ length prefix + 64
unfolding is_prefixed_hash hash_rest
length_of_is_prefixed_hash prefix s h = stripped (strip_prefix prefix s) refl h
  where
    stripped :
        (o : Option Bytes)
        → strip_prefix prefix s ≡ o
        → hash_rest o ≡ true
        → length s ≡ length prefix + 64
    stripped none e k = cc
    stripped (some rest) e k =
        ap length (append_of_strip_prefix prefix s rest e)
        ∙ length-append prefix rest
        ∙ ap (λ n. length prefix + n) (length_of_is_hash rest k)

pub length_of_is_atomic : (s : Bytes) → is_atomic s ≡ true → length s ≤ 78
unfolding is_atomic
length_of_is_atomic [] h = cc
length_of_is_atomic (c ∷ []) h = omega arith
length_of_is_atomic (c ∷ d ∷ r) h = ground arith
