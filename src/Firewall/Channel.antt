-- ===== src/Firewall/Channel.antt =====
-- pkg/firewall/channel.go: the owner's instruction and the received content an agent reads with it.
use tos_messenger.Base.{
  ℕ, List, [], ◌∷◌, ◌++◌, ltb, ◌==◌, if◌then◌else◌, take, drop, Bytes, codes, length, Result, ok,
  refuse_if, map_err, ◌>>◌, require,
}
use tos_messenger.Canon.Encode.{Hash, digest, sha256_prefix}
use tos_messenger.Canon.Utf8.{utf8_valid}
use tos_messenger.Negotiation.Money.{is_out_of_bounds}
use tos_messenger.Firewall.Action.{ActionError, Origin, validate_origin, is_cited}

pub data ChannelError : Type 0 where
  instruction_out_of_bounds instruction_not_utf8 no_instruction too_many_quotations : ChannelError
  body_out_of_bounds body_not_utf8 quotation_without_body : ChannelError
  bad_origin : ActionError → ChannelError

pub record Instruction : Type 0 where
  pub text : Bytes

pub record Quotation : Type 0 where
  pub origin : Origin
  pub body : Bytes

-- 128 << 10
abbrev pub max_quotation_bytes : ℕ
max_quotation_bytes = 131072

-- OwnerInstruction
unfoldable pub owner_instruction : Bytes → Result ChannelError Instruction
owner_instruction text = do
  refuse_if (is_out_of_bounds max_quotation_bytes text) instruction_out_of_bounds
  require (utf8_valid text) instruction_not_utf8
  ok (record { text = text })

-- Quote
unfoldable pub quote : Origin → Bytes → Result ChannelError Quotation
quote origin body = do
  map_err bad_origin (validate_origin origin)
  refuse_if (is_out_of_bounds max_quotation_bytes body) body_out_of_bounds
  require (utf8_valid body) body_not_utf8
  ok (record { origin = origin; body = body })

-- The loop of Origins, with the events that were seen.
unfoldable pub origins_after : List Bytes → List Quotation → List Origin
origins_after seen [] = []
origins_after seen (q ∷ qs) =
    if is_cited q.origin.event_id seen
    then origins_after seen qs
    else q.origin ∷ origins_after (q.origin.event_id ∷ seen) qs

-- Origins
unfoldable pub origins : List Quotation → List Origin
unfolding origins_after
origins qs = origins_after [] qs

module _ ⦃h : Hash⦄ where
  -- The delimiter of a quotation's frame: sixteen digits of its body's digest.
  unfoldable pub delimiter : Quotation → Bytes
  delimiter q = codes "tos-received-" ++ take 16 (drop (length sha256_prefix) (digest q.body))

  -- Quotation.String
  unfoldable pub quotation_string : Quotation → Bytes
  unfolding delimiter
  quotation_string q =
      codes "<<<"
      ++ (delimiter q
          ++ (codes " received-content agent="
              ++ (q.origin.agent_id
                  ++ (codes " endpoint="
                      ++ (q.origin.endpoint_id
                          ++ (codes " event="
                              ++ (q.origin.event_id
                                  ++ (codes " kind="
                                      ++ (q.origin.kind
                                          ++ (codes ">>>\n"
                                              ++ (q.body
                                                  ++ (codes "\n<<<"
                                                      ++ (delimiter q
                                                          ++ codes
                                                            " end-received-content>>>")))))))))))))

  -- The loop of Compose, which appends to the text so far.
  unfoldable pub compose_after : Bytes → List Quotation → Result ChannelError Bytes
  unfolding quotation_string
  compose_after text [] = ok text
  compose_after text (q ∷ qs) = do
    refuse_if (length q.body == 0) quotation_without_body
    compose_after (text ++ (codes "\n\n" ++ quotation_string q)) qs

  -- Compose
  unfoldable pub compose : Instruction → List Quotation → Result ChannelError Bytes
  unfolding compose_after
  compose i qs = do
    refuse_if (length i.text == 0) no_instruction
    refuse_if (ltb 32 (length qs)) too_many_quotations
    compose_after i.text qs
