-- ===== src/Firewall/Action.antt =====
-- pkg/firewall/firewall.go: origins, actions and their tests. The standard library's JSON is the
-- parameter `Json`: what it makes of a text, and the field `action` of the object.
use tos_messenger.Base.{
  ℕ, Bool, true, false, ◌&&◌, ◌||◌, not, Option, none, some, is_some, List, [], ◌∷◌, ltb, ◌==◌,
  Bytes, codes, length, eq_bytes, is_prefixed_hash, is_tool_name, Result, ok, err, require,
  refuse_if, ◌>>◌,
}
use tos_messenger.Canon.Encode.{Hash, digest, valid_digest}
use tos_messenger.Negotiation.Money.{is_out_of_bounds}
use tos_messenger.Negotiation.Terms.{Terms, agent_prefix, capability_prefix}
use tos_messenger.Firewall.Policy.{Effect, physical_io, spend, known, same_effect}

-- encoding/json: the canonical form of an object's text, and the string under its key `action`.
pub record Json : Type 0 where
  pub canonical : Bytes → Option Bytes
  pub action : Bytes → Option Bytes

pub data ActionError : Type 0 where
  origin_without_agent origin_without_endpoint origin_without_device origin_without_event :
      ActionError
  origin_without_conversation origin_without_kind origin_without_time : ActionError
  no_capability no_operation no_argument_digest arguments_out_of_bounds not_json : ActionError
  not_canonical_json other_operation other_digest : ActionError
  unknown_action no_summary bad_key too_many_origins spend_without_terms terms_without_spend :
      ActionError
  no_physical no_key physical_elsewhere event_cited_twice : ActionError

pub record Origin : Type 0 where
  pub agent_id : Bytes
  pub endpoint_id : Bytes
  pub device_id : Bytes
  pub event_id : Bytes
  pub conversation_id : Bytes
  pub kind : Bytes
  pub received_at_unix : ℕ  -- uint64

-- Origin.Validate
unfoldable pub validate_origin : Origin → Result ActionError (Unit {0})
validate_origin o = do
  require (is_prefixed_hash agent_prefix o.agent_id) origin_without_agent
  require (is_prefixed_hash (codes "mep_") o.endpoint_id) origin_without_endpoint
  require (is_prefixed_hash (codes "dev_") o.device_id) origin_without_device
  require (is_prefixed_hash (codes "evt_") o.event_id) origin_without_event
  require (is_prefixed_hash (codes "conv_") o.conversation_id) origin_without_conversation
  refuse_if (is_out_of_bounds 128 o.kind) origin_without_kind
  refuse_if (o.received_at_unix == 0) origin_without_time

pub record PhysicalOperation : Type 0 where
  pub capability_id : Bytes
  pub tool : Bytes
  pub operation : Bytes
  pub arguments_digest : Bytes
  pub arguments_json : Bytes

pub record Action : Type 0 where
  pub effect : Effect
  pub summary : Bytes
  pub idempotency_key : Bytes
  pub derived_from : List Origin
  pub terms : Option Terms
  pub physical : Option PhysicalOperation

-- Untrusted
abbrev pub is_untrusted : Action → Bool
is_untrusted a = ltb 0 (length a.derived_from)

abbrev pub is_cited : Bytes → List Bytes → Bool
is_cited e [] = false
is_cited e (s ∷ seen) = eq_bytes e s || is_cited e seen

-- The loop over the origins, with the events that were seen.
unfoldable pub validate_origins : List Bytes → List Origin → Result ActionError (Unit {0})
unfolding validate_origin
validate_origins seen [] = ok tt
validate_origins seen (o ∷ os) = do
  validate_origin o
  refuse_if (is_cited o.event_id seen) event_cited_twice
  validate_origins (o.event_id ∷ seen) os

abbrev same_text : Option Bytes → Bytes → Bool
same_text none s = false
same_text (some t) s = eq_bytes t s

module _ ⦃h : Hash⦄ ⦃json : Json⦄ where
  -- PhysicalOperation.Validate
  unfoldable pub validate_physical : PhysicalOperation → Result ActionError (Unit {0})
  validate_physical p = do
    require (is_prefixed_hash capability_prefix p.capability_id) no_capability
    require (is_tool_name p.tool && is_tool_name p.operation) no_operation
    require (valid_digest p.arguments_digest) no_argument_digest
    refuse_if (is_out_of_bounds 8192 p.arguments_json) arguments_out_of_bounds
    require (is_some (json.canonical p.arguments_json)) not_json
    require (same_text (json.canonical p.arguments_json) p.arguments_json) not_canonical_json
    require (same_text (json.action p.arguments_json) p.operation) other_operation
    require (eq_bytes p.arguments_digest (digest p.arguments_json)) other_digest

  -- The tests on the physical operation of an action.
  unfoldable pub validate_reach :
      Bool → Bytes → Option PhysicalOperation → Result ActionError (Unit {0})
  validate_reach true key none = err no_physical
  validate_reach true key (some p) = do refuse_if (length key == 0) no_key; validate_physical p
  validate_reach false key p = refuse_if (is_some p) physical_elsewhere

  -- Action.Validate
  unfoldable pub validate_action : Action → Result ActionError (Unit {0})
  validate_action a = do
    require (known a.effect) unknown_action
    refuse_if (is_out_of_bounds 512 a.summary) no_summary
    refuse_if
        (not (length a.idempotency_key == 0)
          && not (is_prefixed_hash (codes "idem_") a.idempotency_key))
        bad_key
    refuse_if (ltb 32 (length a.derived_from)) too_many_origins
    refuse_if (same_effect a.effect spend && not (is_some a.terms)) spend_without_terms
    refuse_if (not (same_effect a.effect spend) && is_some a.terms) terms_without_spend
    validate_reach (same_effect a.effect physical_io) a.idempotency_key a.physical
    validate_origins [] a.derived_from
