-- ===== src/Canon/Latch.antt =====
-- A failed read stays failed, and no read leaves the buffer.
use tos_messenger.Base.{
  inr, inl, ◌∙◌, Bool-cases, ℕ, ◌≤◌, ◌≡◌, refl, Bool, true, false, Option, none, some, List, [],
  ◌∷◌, arith, Bytes, length, err, ltb, if◌then◌else◌, is_some,
}
use tos_messenger.Canon.Reader.{
  over_its_bound, Reader, ReadError, take_bytes, read_uint8, read_count, read_uint32, read_uint64,
  read_bytes, read_text, read_hash32, done, fail, checked_text, checked_hash,
}
use tos_messenger.Canon.Document.{
  Kind, kind8, kind_count, kind32, kind64, kind_hash, kind_bytes, kind_text, read_field,
  read_fields,
}

module _ (r : Reader) (e : ReadError) (failed : r.failure ≡ some e) where
  take_bytes-failed : (n : ℕ) → take_bytes n r ≡ (r, none)
  unfolding take_bytes
  take_bytes-failed n = ground arith

  read_bytes-failed : (maximum : ℕ) → read_bytes maximum r ≡ (r, none)
  unfolding read_bytes read_uint32
  read_bytes-failed maximum = ground (arith, take_bytes-failed 4)

  read_field-failed : (k : Kind) → (read_field k r).0 ≡ r
  unfolding read_field read_uint8 read_count read_uint32 read_uint64 read_text read_hash32
      checked_text checked_hash
  read_field-failed kind8 = ground (arith, take_bytes-failed 1)
  read_field-failed (kind_count maximum) = ground (arith, take_bytes-failed 4)
  read_field-failed kind32 = ground (arith, take_bytes-failed 4)
  read_field-failed kind64 = ground (arith, take_bytes-failed 8)
  read_field-failed kind_hash = ground (arith, read_bytes-failed 32)
  read_field-failed (kind_bytes maximum) = ground (arith, read_bytes-failed maximum)
  read_field-failed (kind_text maximum) = ground (arith, read_bytes-failed maximum)

-- After a failure every further sequence of reads leaves the reader as it is, and `Done` reports
-- the first failure.
pub read_fields_latched :
    (r : Reader) (e : ReadError) (ks : List Kind)
    → r.failure ≡ some e
    → ((read_fields ks r).0 ≡ r) × (done (read_fields ks r).0 ≡ err e)
unfolding read_fields done
read_fields_latched r e [] h = (refl, ground arith)
read_fields_latched r e (k ∷ ks) h = rw (read_field-failed r e h k) (read_fields_latched r e ks h)

abbrev pub IsWithin : Reader → Type 0
IsWithin r = r.offset ≤ length r.buffer

-- The buffer is kept and the offset only grows, within the buffer.
record Advances (r r' : Reader) : Type 0 where
  kept_buffer : r'.buffer ≡ r.buffer
  grows : r.offset ≤ r'.offset
  within : IsWithin r → IsWithin r'

take_bytes-Advances : (n : ℕ) (r : Reader) → Advances r (take_bytes n r).0
unfolding take_bytes fail
take_bytes-Advances n r = ground arith

Advances-trans : (r s t : Reader) → Advances r s → Advances s t → Advances r t
Advances-trans r s t p q = record {
  kept_buffer = q.kept_buffer ∙ p.kept_buffer;
  grows = omega arith;
  within = λ h. q.within (p.within h);
}

Advances-fail : (e : ReadError) (r : Reader) → Advances r (fail e r)
unfolding fail
Advances-fail e r = ground arith

Advances-if :
    (b : Bool) (r s t : Reader) → Advances r s → Advances r t → Advances r (if b then s else t)
Advances-if true r s t p q = p
Advances-if false r s t p q = q

read_bytes-Advances : (maximum : ℕ) (r : Reader) → Advances r (read_bytes maximum r).0
unfolding read_bytes read_uint32
read_bytes-Advances maximum r =
    let r' = (take_bytes 4 r).0 in
    elim (Bool-cases (is_some r'.failure)) [
      | inl e ↦ rw e (take_bytes-Advances 4 r)
      | inr e ↦ rw e (elim (Bool-cases (ltb maximum (read_uint32 r).1)) [
        | inl f ↦
            rw f (Advances-trans r r' _ (take_bytes-Advances 4 r) (Advances-fail over_its_bound r'))
        | inr f ↦ rw f (
            Advances-trans r r' _ (take_bytes-Advances 4 r)
              (take_bytes-Advances (read_uint32 r).1 r'))
      ])
    ]

checked_text-Advances : (r : Reader) (raw : Option Bytes) → Advances r (checked_text r raw).0
unfolding checked_text fail
checked_text-Advances r raw = ground arith

checked_hash-Advances : (r : Reader) (raw : Option Bytes) → Advances r (checked_hash r raw).0
unfolding checked_hash fail
checked_hash-Advances r raw = ground arith

read_count-Advances : (maximum : ℕ) (r : Reader) → Advances r (read_count maximum r).0
unfolding read_count read_uint32
read_count-Advances maximum r =
    let r' = (take_bytes 4 r).0 in
    elim (Bool-cases (is_some r'.failure)) [
      | inl e ↦ rw e (take_bytes-Advances 4 r)
      | inr e ↦ rw e (elim (Bool-cases (ltb maximum (read_uint32 r).1)) [
        | inl f ↦
            rw f (Advances-trans r r' _ (take_bytes-Advances 4 r) (Advances-fail over_its_bound r'))
        | inr f ↦ rw f (take_bytes-Advances 4 r)
      ])
    ]

read_field-Advances : (k : Kind) (r : Reader) → Advances r (read_field k r).0
unfolding read_field read_uint8 read_uint32 read_uint64 read_text read_hash32
read_field-Advances kind8 r = take_bytes-Advances 1 r
read_field-Advances (kind_count maximum) r = read_count-Advances maximum r
read_field-Advances kind32 r = take_bytes-Advances 4 r
read_field-Advances kind64 r = take_bytes-Advances 8 r
read_field-Advances kind_hash r =
    let (r', raw) = read_bytes 32 r in
    Advances-trans r r' _ (read_bytes-Advances 32 r) (checked_hash-Advances r' raw)
read_field-Advances (kind_bytes maximum) r = read_bytes-Advances maximum r
read_field-Advances (kind_text maximum) r =
    let (r', raw) = read_bytes maximum r in
    Advances-trans r r' _ (read_bytes-Advances maximum r) (checked_text-Advances r' raw)

read_fields-Advances : (ks : List Kind) (r : Reader) → Advances r (read_fields ks r).0
unfolding read_fields
read_fields-Advances [] r = ground arith
read_fields-Advances (k ∷ ks) r =
    let r' = (read_field k r).0 in
    Advances-trans r r' _ (read_field-Advances k r) (read_fields-Advances ks r')

-- Whatever the bytes and the kinds are, a reader that starts within its buffer ends within the same
-- buffer, and its offset does not go back.
pub read_fields-IsWithin :
    (ks : List Kind) (r : Reader)
    → IsWithin r
    → let r' = (read_fields ks r).0 in (r'.buffer ≡ r.buffer) × (r.offset ≤ r'.offset) × IsWithin r'
read_fields-IsWithin ks r h =
    let a = read_fields-Advances ks r in (a.kept_buffer, a.grows, a.within h)
