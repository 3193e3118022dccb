-- ===== src/Examples/Encoding.antt =====
-- Examples on canonical encodings.
use tos_messenger.Base.{
  ◌≡◌, ◌≤◌, refl, none, some, List, [], ◌∷◌, ◌++◌, ◌==◌, Bytes, codes, length, ok, err,
  if◌then◌else◌, arith,
}
use tos_messenger.Canon.Utf8.{utf8_valid}
use tos_messenger.Canon.Hex.{hex_encode, hex_decode, hex_decode-hex_encode}
use tos_messenger.Canon.Encode.{uint32, uint64, text}
use tos_messenger.Canon.Reader.{Reader, new_reader, done, trailing_bytes, past_the_end}
use tos_messenger.Canon.Document.{
  Kind, kind32, kind64, kind_text, Value, number, string, write_field, write_fields, read_fields,
  document_round_trip, write_fields-injective,
}
use tos_messenger.Canon.Latch.{read_fields_latched, read_fields-IsWithin, IsWithin}

abbrev extra : Bytes
extra = 7 ∷ []

abbrev kinds : List Kind
kinds = kind32 ∷ kind_text 16 ∷ kind64 ∷ []

abbrev values : List Value
values = number 3 ∷ string (codes "tos") ∷ number 900 ∷ []

abbrev encoded : Bytes
encoded = 0 ∷ 0 ∷ 0 ∷ 3 ∷ 0 ∷ 0 ∷ 0 ∷ 3 ∷ 116 ∷ 111 ∷ 115 ∷ 0 ∷ 0 ∷ 0 ∷ 0 ∷ 0 ∷ 0 ∷ 3 ∷ 132 ∷ []

written : write_fields kinds values ≡ some encoded
unfolding write_fields write_field uint32 uint64 text utf8_valid
written = refl

document_round_trip_example :
    let (r, ws) =
      read_fields kinds (new_reader (codes "domain") (codes "domain" ++ (encoded ++ extra))) in
    (ws ≡ values) × (done r ≡ (if length extra == 0 then ok tt else err trailing_bytes))
document_round_trip_example =
    document_round_trip (codes "domain") encoded extra kinds values written

write_fields-injective_example : values ≡ values
write_fields-injective_example = write_fields-injective kinds values values encoded written written

abbrev failed : Reader
failed = record { buffer = encoded; offset = 4; failure = some past_the_end }

read_fields_latched_example :
    ((read_fields kinds failed).0 ≡ failed) × (done (read_fields kinds failed).0 ≡ err past_the_end)
read_fields_latched_example = read_fields_latched failed past_the_end kinds refl

abbrev short : Reader
short = record { buffer = codes "domain"; offset = 6; failure = none }

read_fields-IsWithin_example :
    let r' = (read_fields kinds short).0 in
    (r'.buffer ≡ short.buffer) × (6 ≤ r'.offset) × IsWithin r'
read_fields-IsWithin_example = read_fields-IsWithin kinds short (omega arith)

hex_decode-hex_encode_example : hex_decode (hex_encode (codes "tos")) ≡ some (codes "tos")
hex_decode-hex_encode_example =
    hex_decode-hex_encode (codes "tos") (omega arith, (omega arith, (omega arith, tt)))
