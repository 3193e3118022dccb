-- ===== src/Canon/Document.antt =====
-- A whole preimage: a domain separator and a sequence of fields, each written by one function of
-- canon.go and read by its counterpart of reader.go.
use tos_messenger.Base.{
  eq_bytes_refl, take-append, length-append, ◌==◌, ℕ, ◌^◌, ◌≡◌, refl, ap, sym, ◌∙◌, false, ◌&&◌,
  Option, none, some, List, [], ◌∷◌, ◌++◌, append_assoc, arith, ltb, leb, if◌then◌else◌, Bytes,
  length, Result, ok, err, is_hash, append-nil,
}
use tos_messenger.Canon.Utf8.{utf8_valid}
use tos_messenger.Canon.Encode.{uint32, uint64, bytes, text, hash32}
use tos_messenger.Canon.Reader.{
  trailing_bytes, Reader, new_reader, read_uint8, read_count, read_uint32, read_uint64, read_bytes,
  read_text, read_hash32, done,
}
use tos_messenger.Canon.RoundTrip.{
  reader_at, read_uint32-uint32, read_uint8-byte, read_count-uint32, read_uint64-uint64,
  read_bytes-bytes, read_text-text, read_hash32-hash32,
}

-- Which pair of functions a field goes through; the kind of a count or a string carries the
-- reader's bound.
pub data Kind : Type 0 where
  kind8 kind32 kind64 kind_hash : Kind
  kind_count kind_bytes kind_text : ℕ → Kind

pub data Value : Type 0 where
  number : ℕ → Value
  string : Bytes → Value

kept : {A : Type 0} → Result A Bytes → Option Bytes
kept (ok b) = some b
kept (err e) = none

-- The bytes of a field, if its value is one that the type and the reader's bound allow.
unfoldable pub write_field : Kind → Value → Option Bytes
unfolding kept
write_field kind8 (number v) = if ltb v 256 then some (v ∷ []) else none
write_field (kind_count maximum) (number v) =
    if ltb v (2 ^ 32) && leb v maximum then some (uint32 v) else none
write_field kind32 (number v) = if ltb v (2 ^ 32) then some (uint32 v) else none
write_field kind64 (number v) = if ltb v (2 ^ 64) then some (uint64 v) else none
write_field kind_hash (string s) = if is_hash s then kept (hash32 s) else none
write_field (kind_bytes maximum) (string s) =
    if ltb (length s) (2 ^ 32) && leb (length s) maximum then some (bytes s) else none
write_field (kind_text maximum) (string s) =
    if ltb (length s) (2 ^ 32) && leb (length s) maximum && utf8_valid s
    then some (text s)
    else none
write_field _ _ = none

or_empty : Option Bytes → Bytes
or_empty none = []
or_empty (some s) = s

unfoldable pub read_field : Kind → Reader → Reader × Value
unfolding or_empty
read_field kind8 r = let (r', v) = read_uint8 r in (r', number v)
read_field (kind_count maximum) r = let (r', v) = read_count maximum r in (r', number v)
read_field kind32 r = let (r', v) = read_uint32 r in (r', number v)
read_field kind64 r = let (r', v) = read_uint64 r in (r', number v)
read_field kind_hash r = let (r', s) = read_hash32 r in (r', string s)
read_field (kind_bytes maximum) r = let (r', s) = read_bytes maximum r in (r', string (or_empty s))
read_field (kind_text maximum) r = let (r', s) = read_text maximum r in (r', string s)

joined : Option Bytes → Option Bytes → Option Bytes
joined (some a) (some b) = some (a ++ b)
joined _ _ = none

unfoldable pub write_fields : List Kind → List Value → Option Bytes
unfolding joined
write_fields [] [] = some []
write_fields (k ∷ ks) (v ∷ vs) = joined (write_field k v) (write_fields ks vs)
write_fields _ _ = none

unfoldable pub read_fields : List Kind → Reader → Reader × List Value
read_fields [] r = (r, [])
read_fields (k ∷ ks) r =
    let (r1, v) = read_field k r in let (r2, vs) = read_fields ks r1 in (r2, v ∷ vs)

module _ (before rest enc : Bytes) where
  read_field-number8 :
      (v : ℕ)
      → write_field kind8 (number v) ≡ some enc
      → read_field kind8 (reader_at before (enc ++ rest))
        ≡ (reader_at (before ++ enc) rest, number v)
  unfolding write_field read_field
  read_field-number8 v h =
      let e : enc ≡ v ∷ [] = ground arith in rw (e, read_uint8-byte before rest v) refl

  read_field-count :
      (maximum v : ℕ)
      → write_field (kind_count maximum) (number v) ≡ some enc
      → read_field (kind_count maximum) (reader_at before (enc ++ rest))
        ≡ (reader_at (before ++ enc) rest, number v)
  unfolding write_field read_field
  read_field-count maximum v h =
      let e : enc ≡ uint32 v = ground arith in
      rw (e, read_count-uint32 before rest maximum v (ground arith) (ground arith)) refl

  read_field-number32 :
      (v : ℕ)
      → write_field kind32 (number v) ≡ some enc
      → read_field kind32 (reader_at before (enc ++ rest))
        ≡ (reader_at (before ++ enc) rest, number v)
  unfolding write_field read_field
  read_field-number32 v h =
      let e : enc ≡ uint32 v = ground arith in
      rw (e, read_uint32-uint32 before rest v (ground arith)) refl

  read_field-number64 :
      (v : ℕ)
      → write_field kind64 (number v) ≡ some enc
      → read_field kind64 (reader_at before (enc ++ rest))
        ≡ (reader_at (before ++ enc) rest, number v)
  unfolding write_field read_field
  read_field-number64 v h =
      let e : enc ≡ uint64 v = ground arith in
      rw (e, read_uint64-uint64 before rest v (ground arith)) refl

  read_field-bytes :
      (maximum : ℕ) (s : Bytes)
      → write_field (kind_bytes maximum) (string s) ≡ some enc
      → read_field (kind_bytes maximum) (reader_at before (enc ++ rest))
        ≡ (reader_at (before ++ enc) rest, string s)
  unfolding write_field read_field
  read_field-bytes maximum s h =
      let e : enc ≡ bytes s = ground arith in
      rw (e, read_bytes-bytes before rest maximum s (ground arith) (ground arith)) refl

  read_field-text :
      (maximum : ℕ) (s : Bytes)
      → write_field (kind_text maximum) (string s) ≡ some enc
      → read_field (kind_text maximum) (reader_at before (enc ++ rest))
        ≡ (reader_at (before ++ enc) rest, string s)
  unfolding write_field read_field
  read_field-text maximum s h =
      let e : enc ≡ text s = ground arith in
      rw (e, read_text-text before rest maximum s (ground arith) (ground arith) (ground arith)) refl

  read_field-hash :
      (s : Bytes)
      → write_field kind_hash (string s) ≡ some enc
      → read_field kind_hash (reader_at before (enc ++ rest))
        ≡ (reader_at (before ++ enc) rest, string s)
  unfolding write_field read_field kept
  read_field-hash s h = rw (read_hash32-hash32 before rest s enc (ground arith) (ground arith)) refl

-- A field is read back by the function that belongs to it, and the reader stops behind it.
read_field-write_field :
    (before rest enc : Bytes) (k : Kind) (v : Value)
    → write_field k v ≡ some enc
    → read_field k (reader_at before (enc ++ rest)) ≡ (reader_at (before ++ enc) rest, v)
read_field-write_field before rest enc kind8 (number v) h = read_field-number8 before rest enc v h
read_field-write_field before rest enc (kind_count m) (number v) h =
    read_field-count before rest enc m v h
read_field-write_field before rest enc kind32 (number v) h = read_field-number32 before rest enc v h
read_field-write_field before rest enc kind64 (number v) h = read_field-number64 before rest enc v h
read_field-write_field before rest enc kind_hash (string s) h = read_field-hash before rest enc s h
read_field-write_field before rest enc (kind_bytes m) (string s) h =
    read_field-bytes before rest enc m s h
read_field-write_field before rest enc (kind_text m) (string s) h =
    read_field-text before rest enc m s h
read_field-write_field before rest enc kind8 (string s) h = absurd (unfold write_field in cc)
read_field-write_field before rest enc (kind_count m) (string s) h =
    absurd (unfold write_field in cc)
read_field-write_field before rest enc kind32 (string s) h = absurd (unfold write_field in cc)
read_field-write_field before rest enc kind64 (string s) h = absurd (unfold write_field in cc)
read_field-write_field before rest enc kind_hash (number v) h = absurd (unfold write_field in cc)
read_field-write_field before rest enc (kind_bytes m) (number v) h =
    absurd (unfold write_field in cc)
read_field-write_field before rest enc (kind_text m) (number v) h =
    absurd (unfold write_field in cc)

joined-eq-some :
    (a b : Option Bytes) (enc : Bytes)
    → joined a b ≡ some enc
    → (x y : Bytes) × (a ≡ some x) × (b ≡ some y) × (x ++ y ≡ enc)
unfolding joined
joined-eq-some (some x) (some y) enc h = (x, y, refl, refl, ground arith)
joined-eq-some (some x) none enc h = cc
joined-eq-some none b enc h = cc

read_fields_step :
    (k : Kind) (ks : List Kind) (r r1 r2 : Reader) (v : Value) (vs : List Value)
    → read_field k r ≡ (r1, v)
    → read_fields ks r1 ≡ (r2, vs)
    → read_fields (k ∷ ks) r ≡ (r2, v ∷ vs)
unfolding read_fields
read_fields_step k ks r r1 r2 v vs e1 e2 =
    ap
      (λ p.
        let (x, w) = p in
        let (y, ws) = read_fields ks x in let t : Reader × List Value = (y, w ∷ ws) in t)
      e1
    ∙ ap (λ p. let t : Reader × List Value = (p.0, v ∷ p.1) in t) e2

-- The fields that were written are read back, in order, and the reader stops behind them.
pub read_fields-write_fields :
    (before rest enc : Bytes) (ks : List Kind) (vs : List Value)
    → write_fields ks vs ≡ some enc
    → read_fields ks (reader_at before (enc ++ rest)) ≡ (reader_at (before ++ enc) rest, vs)
unfolding write_fields
read_fields-write_fields before rest enc [] [] h =
    let e : enc ≡ [] = ground arith in rw (e, append-nil) (unfold read_fields in refl)
read_fields-write_fields before rest enc [] (v ∷ vs) h = cc
read_fields-write_fields before rest enc (k ∷ ks) [] h = cc
read_fields-write_fields before rest enc (k ∷ ks) (v ∷ vs) h =
    let (x, y, px, py, e) = joined-eq-some (write_field k v) (write_fields ks vs) enc h in
    rw (← e, append_assoc x y rest, ← append_assoc before x y)
      (read_fields_step k ks _ _ _ v vs (read_field-write_field before (y ++ rest) x k v px)
        (read_fields-write_fields (before ++ x) rest y ks vs py))

new_reader-append : (domain enc : Bytes) → new_reader domain (domain ++ enc) ≡ reader_at domain enc
unfolding new_reader
new_reader-append domain enc =
    rw (not_shorter domain enc, take-append domain enc, eq_bytes_refl domain) refl
  where
    not_shorter : (x y : Bytes) → ltb (length (x ++ y)) (length x) ≡ false
    not_shorter x y = ground (arith, length-append x y)

done-at :
    (before rest : Bytes)
    → done (reader_at before rest) ≡ (if length rest == 0 then ok tt else err trailing_bytes)
unfolding done
done-at before rest = ground (arith, length-append before rest)

-- Reading a preimage by the kinds that it was written with gives the fields that were written,
-- and `Done` accepts exactly when no byte was left behind them.
pub document_round_trip :
    (domain enc rest : Bytes) (ks : List Kind) (vs : List Value)
    → write_fields ks vs ≡ some enc
    → let (r, ws) = read_fields ks (new_reader domain (domain ++ (enc ++ rest))) in
      (ws ≡ vs) × (done r ≡ (if length rest == 0 then ok tt else err trailing_bytes))
document_round_trip domain enc rest ks vs h =
    let e =
      ap (read_fields ks) (new_reader-append domain (enc ++ rest))
      ∙ read_fields-write_fields domain rest enc ks vs h in
    (ap (λ p. p.1) e, ap (λ p. done p.0) e ∙ done-at (domain ++ enc) rest)

-- Two sequences of fields of the same kinds with one encoding are the same.
pub write_fields-injective :
    (ks : List Kind) (vs ws : List Value) (enc : Bytes)
    → write_fields ks vs ≡ some enc
    → write_fields ks ws ≡ some enc
    → vs ≡ ws
write_fields-injective ks vs ws enc h k =
    ap (λ p. p.1)
      (sym (read_fields-write_fields [] [] enc ks vs h)
        ∙ read_fields-write_fields [] [] enc ks ws k)
