-- ===== src/Canon/Collision.antt =====
-- What a SHA-256 digest of canon.go binds: the bytes that were digested, up to a collision.
use tos_messenger.Base.{
  ◌≡◌, ◌≢◌, ◌⊎◌, inl, inr, sym, ap, ◌∙◌, true, false, some, [], ◌∷◌, ◌++◌, arith, Bytes, eq_bytes,
  eq_bytes→eq, eq_bytes_refl, subst, Bool-cases,
}
use tos_messenger.Canon.Hex.{hex_decode, hex_decode-hex_encode}
use tos_messenger.Canon.Encode.{Hash, digest, sha256_prefix}

pub append_cancel : (p x y : Bytes) → p ++ x ≡ p ++ y → x ≡ y
append_cancel [] x y e = e
append_cancel (c ∷ p) x y e = append_cancel p x y (ground arith)

module _ ⦃h : Hash⦄ where
  -- These two inputs are different and have one SHA-256.
  abbrev pub Collides : Bytes → Bytes → Type 0
  Collides x y = (x ≢ y) × (h.sum x ≡ h.sum y)

  sum_of_digest : (x y : Bytes) → digest x ≡ digest y → h.sum x ≡ h.sum y
  unfolding digest
  sum_of_digest x y e =
      let hex = append_cancel sha256_prefix _ _ e in
      some-injective (
        sym (hex_decode-hex_encode (h.sum x) (h.sum_bytes x))
        ∙ ap hex_decode hex
        ∙ hex_decode-hex_encode (h.sum y) (h.sum_bytes y))
    where
      some-injective : {a b : Bytes} → some a ≡ some b → a ≡ b
      some-injective e = ground arith

  pub digest_binds : (x y : Bytes) → digest x ≡ digest y → (x ≡ y) ⊎ Collides x y
  digest_binds x y e = elim (Bool-cases (eq_bytes x y)) [
    | inl same ↦ inl (eq_bytes→eq x y same)
    | inr other ↦ inr (differ other, sum_of_digest x y e)
  ]
    where
      differ : eq_bytes x y ≡ false → x ≢ y
      differ other same = let p = subst (λ z. eq_bytes x z ≡ true) same (eq_bytes_refl x) in cc
