-- ===== src/Canon/Leads.antt =====
-- The fields of canon.go in front of other bytes: equal bytes have equal first fields and equal rests.
use tos_messenger.Base.{
  ℕ, ◌<◌, ◌^◌, ◌≡◌, refl, sym, ◌∙◌, ap, true, [], ◌∷◌, ◌++◌, append_assoc, arith, Bytes, length, ok,
  is_hash, u32,
}
use tos_messenger.Canon.Hex.{hex_encode}
use tos_messenger.Canon.Encode.{uint32, uint64, bytes, text, hash32}
use tos_messenger.Canon.Reader.{big_endian}
use tos_messenger.Canon.RoundTrip.{
  length-uint64, big_endian-uint32_zero, big_endian-uint64, u32-length, length-uint32,
  bytes_of_hash32,
}

-- Equal bytes with first parts of one length.
lead : (a b x y : Bytes) → length a ≡ length b → a ++ x ≡ b ++ y → (a ≡ b) × (x ≡ y)
lead [] [] x y n e = (refl, e)
lead [] (d ∷ b) x y n e = absurd (omega arith)
lead (c ∷ a) [] x y n e = absurd (omega arith)
lead (c ∷ a) (d ∷ b) x y n e = ground (arith, lead a b x y)

pub uint32_lead :
    (v w : ℕ) (x y : Bytes)
    → v < 2 ^ 32
    → w < 2 ^ 32
    → uint32 v ++ x ≡ uint32 w ++ y
    → (v ≡ w) × (x ≡ y)
uint32_lead v w x y hv hw e =
    let (same, rest) = lead (uint32 v) (uint32 w) x y (length-uint32 v ∙ sym (length-uint32 w)) e in
    (sym (big_endian-uint32_zero v hv) ∙ ap (big_endian 0) same ∙ big_endian-uint32_zero w hw, rest)

pub uint64-injective : (v w : ℕ) → v < 2 ^ 64 → w < 2 ^ 64 → uint64 v ≡ uint64 w → v ≡ w
uint64-injective v w hv hw e =
    sym (big_endian-uint64 v hv) ∙ ap (big_endian 0) e ∙ big_endian-uint64 w hw

pub uint64_lead :
    (v w : ℕ) (x y : Bytes)
    → v < 2 ^ 64
    → w < 2 ^ 64
    → uint64 v ++ x ≡ uint64 w ++ y
    → (v ≡ w) × (x ≡ y)
uint64_lead v w x y hv hw e =
    let (same, rest) = lead (uint64 v) (uint64 w) x y (length-uint64 v ∙ sym (length-uint64 w)) e in
    (uint64-injective v w hv hw same, rest)

pub text_lead :
    (s t x y : Bytes)
    → length s < 2 ^ 32
    → length t < 2 ^ 32
    → text s ++ x ≡ text t ++ y
    → (s ≡ t) × (x ≡ y)
unfolding text
text_lead s t x y hs ht e =
    let flat =
      sym (append_assoc (uint32 (u32 (length s))) s x)
      ∙ e
      ∙ append_assoc (uint32 (u32 (length t))) t y in
    let (n, rest) =
      uint32_lead (u32 (length s)) (u32 (length t)) (s ++ x) (t ++ y) (omega arith) (omega arith)
        flat in
    lead s t x y (sym (u32-length s hs) ∙ n ∙ u32-length t ht) rest

bytes_lead :
    (s t x y : Bytes)
    → length s ≡ 32
    → length t ≡ 32
    → bytes s ++ x ≡ bytes t ++ y
    → (s ≡ t) × (x ≡ y)
unfolding bytes
bytes_lead s t x y hs ht e = text_lead s t x y (omega arith) (omega arith) (unfold text in e)

pub hash32_lead :
    (s t a b x y : Bytes)
    → is_hash s ≡ true
    → is_hash t ≡ true
    → hash32 s ≡ ok a
    → hash32 t ≡ ok b
    → a ++ x ≡ b ++ y
    → (s ≡ t) × (x ≡ y)
hash32_lead s t a b x y hs ht ea eb e =
    let (raw, pr, er, nr) = bytes_of_hash32 s hs in
    let (raw', pr', er', nr') = bytes_of_hash32 t ht in
    let same : a ≡ bytes raw = ground arith in
    let same' : b ≡ bytes raw' = ground arith in
    let (eq, rest) =
      bytes_lead raw raw' x y nr nr' (ap (λ z. z ++ x) (sym same) ∙ e ∙ ap (λ z. z ++ y) same') in
    (sym er ∙ ap hex_encode eq ∙ er', rest)
