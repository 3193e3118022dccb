-- ===== src/Examples/Guarding.antt =====
-- Examples on the firewall.
use tos_messenger.Base.{
  List, arith, ◌≡◌, refl, none, some, [], ◌∷◌, ◌++◌, codes, ok, is_hash, is_prefixed_hash,
  is_atomic, is_capability_class, sort_by, insert_by,
}
use tos_messenger.Canon.Encode.{valid_digest}
use tos_messenger.Canon.Hex.{hex_decode}
use tos_messenger.Negotiation.Amount.{atomic_value}
use tos_messenger.Negotiation.Money.{
  validate_money, validate_asset, validate_network, same_asset, same_network, at_most, money_int,
}
use tos_messenger.Negotiation.Terms.{
  agent_prefix, validate_terms, is_commitment_digest, is_set_digest, normalize_digest,
}
use tos_messenger.Negotiation.Mandate.{
  live, validate_mandate, seconds_of, permits_commit, permits_at, permits_checks,
}
use tos_messenger.Firewall.Policy.{Policy, message, spend, default_policy, validate_policy}
use tos_messenger.Firewall.Action.{
  Json, Origin, Action, validate_origin, validate_origins, validate_reach, validate_action,
}
use tos_messenger.Firewall.Evaluate.{
  Decision, allow, within_policy, evaluate, evaluate_spend, judge, decided, judge_spend, spend_of,
  spend_complete, spend_within,
}
use tos_messenger.Firewall.Reach.{
  Unattended, evaluate-Unattended, SpendUnattended, evaluate_spend-SpendUnattended,
}
use tos_messenger.Firewall.Origins.{evaluate_own}
use tos_messenger.Firewall.Channel.{
  Quotation, no_instruction, quote, origins, origins_after, compose,
}
use tos_messenger.Firewall.Cited.{origins-cites, origin_of, quoted_origin}
use tos_messenger.Canon.Utf8.{utf8_valid}
use tos_messenger.Base.{err, Bytes}
use tos_messenger.Examples.Data.{toy_hash, hex64, deal, allowance, noon}

-- A parser that knows one text.
instance abbrev toy_json : Json
toy_json = record { canonical = λ s. some s; action = λ s. some (codes "read") }

abbrev other_hex : Bytes
other_hex = codes "ffffffffffffffffffffffffffffffffffffffffffffffffffffffffffffffff"

abbrev letter : Origin
letter = record {
  agent_id = agent_prefix ++ hex64;
  endpoint_id = codes "mep_" ++ hex64;
  device_id = codes "dev_" ++ hex64;
  event_id = codes "evt_" ++ hex64;
  conversation_id = codes "conv_" ++ hex64;
  kind = codes "text";
  received_at_unix = 400;
}

abbrev reply : Action
reply = record {
  effect = message;
  summary = codes "reply";
  idempotency_key = [];
  derived_from = letter ∷ [];
  terms = none;
  physical = none;
}

abbrev replied : Decision
replied = record {
  outcome = allow;
  reason = within_policy;
  effect = message;
  ceiling = some message;
  provenance = letter ∷ [];
}

reply_runs : evaluate default_policy reply ≡ ok replied
unfolding evaluate decided judge validate_policy validate_action validate_reach validate_origins
    validate_origin is_prefixed_hash is_hash sort_by insert_by
reply_runs = refl

evaluate-Unattended_example : Unattended default_policy reply
evaluate-Unattended_example = evaluate-Unattended default_policy reply replied reply_runs refl

evaluate_own_example :
    (own : Decision) × (evaluate default_policy (record reply { derived_from = [] }) ≡ ok own)
    × (own.outcome ≡ allow)
evaluate_own_example = evaluate_own default_policy reply replied reply_runs refl

abbrev generous : Policy
generous = record { unattended_ceiling = spend; own_initiative_ceiling = spend }

abbrev purchase : Action
purchase = record reply { effect = spend; terms = some deal }

abbrev purchased : Decision
purchased = record replied { effect = spend; ceiling = some spend }

purchase_runs : evaluate_spend generous allowance purchase noon ≡ ok purchased
unfolding evaluate_spend judge_spend spend_of spend_complete spend_within evaluate decided judge
    validate_policy validate_action validate_reach validate_origins validate_origin is_prefixed_hash
    is_hash sort_by insert_by validate_terms is_commitment_digest is_set_digest normalize_digest
    valid_digest hex_decode is_capability_class permits_commit permits_at permits_checks live
    validate_mandate seconds_of at_most money_int atomic_value validate_money validate_asset
    validate_network is_atomic same_asset same_network
purchase_runs = refl

evaluate_spend-SpendUnattended_example : SpendUnattended generous allowance purchase noon
evaluate_spend-SpendUnattended_example =
    evaluate_spend-SpendUnattended generous allowance purchase noon purchased purchase_runs refl

abbrev greeting : Quotation
greeting = record { origin = letter; body = codes "hi" }

abbrev post : Quotation
post = record { origin = record letter { event_id = codes "evt_" ++ other_hex }; body = codes "ok" }

quote_runs : quote greeting.origin greeting.body ≡ ok greeting
unfolding quote validate_origin is_prefixed_hash is_hash utf8_valid
quote_runs = refl

quote_post : quote post.origin post.body ≡ ok post
unfolding quote validate_origin is_prefixed_hash is_hash utf8_valid
quote_post = refl

-- A quotation that is given twice is cited once.
origins_runs : origins (greeting ∷ post ∷ greeting ∷ []) ≡ letter ∷ post.origin ∷ []
unfolding origins origins_after
origins_runs = refl

bare_reply : validate_action (record reply { derived_from = [] }) ≡ ok tt
unfolding validate_action validate_reach validate_origins
bare_reply = refl

abbrev heard : List Quotation
heard = greeting ∷ post ∷ greeting ∷ []

origins-cites_example :
    (validate_action (record reply { derived_from = origins heard }) ≡ ok tt)
    × ((e : Bytes) → origin_of e (origins heard) ≡ quoted_origin e heard)
origins-cites_example =
    origins-cites reply heard bare_reply (quote_runs, (quote_post, (quote_runs, tt))) (omega arith)

compose_refuses : compose (record { text = [] }) (greeting ∷ []) ≡ err no_instruction
unfolding compose
compose_refuses = refl
