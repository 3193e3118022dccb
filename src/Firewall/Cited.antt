-- ===== src/Firewall/Cited.antt =====
-- Actions that cite what was read: the origins of quotations are what an action may cite.
use tos_messenger.Base.{
  ◌≡◌, ◌≤◌, refl, Option, none, some, List, [], ◌∷◌, if◌then◌else◌, Bytes, length, Result, ok, err,
  arith, eq_bytes, eq_bytes→eq, Bool-cases, inl, inr, map_err, >>=-eq-ok,
}
use tos_messenger.Canon.Encode.{Hash}
use tos_messenger.Firewall.Action.{
  Json, Action, Origin, ActionError, validate_action, validate_origin, validate_origins, is_cited,
}
use tos_messenger.Firewall.Channel.{bad_origin, Quotation, quote, origins, origins_after}

-- Quotations that `Quote` made.
abbrev pub AllQuoted : List Quotation → Type 0
AllQuoted [] = Unit {0}
AllQuoted (q ∷ qs) = (quote q.origin q.body ≡ ok q) × AllQuoted qs

-- The first origin of an event, among origins and among what was quoted.
abbrev pub origin_of : Bytes → List Origin → Option Origin
origin_of e [] = none
origin_of e (o ∷ os) = if eq_bytes e o.event_id then some o else origin_of e os

abbrev pub quoted_origin : Bytes → List Quotation → Option Origin
quoted_origin e [] = none
quoted_origin e (q ∷ qs) =
    if eq_bytes e q.origin.event_id then some q.origin else quoted_origin e qs

quote-validate_origin :
    (q : Quotation) → quote q.origin q.body ≡ ok q → validate_origin q.origin ≡ ok tt
unfolding quote
quote-validate_origin q h =
    let (u, e, k) = >>=-eq-ok (map_err bad_origin (validate_origin q.origin)) _ h in
    kept (validate_origin q.origin) u e
  where
    kept :
        (r : Result ActionError (Unit {0})) (u : Unit {0}) → map_err bad_origin r ≡ ok u → r ≡ ok tt
    kept (ok v) u e = refl
    kept (err f) u e = cc

origins_after-valid :
    (seen : List Bytes) (qs : List Quotation)
    → AllQuoted qs
    → validate_origins seen (origins_after seen qs) ≡ ok tt
unfolding origins_after validate_origins
origins_after-valid seen [] h = refl
origins_after-valid seen (q ∷ qs) h = elim (Bool-cases (is_cited q.origin.event_id seen)) [
  | inl cited ↦ rw cited (origins_after-valid seen qs h.1)
  | inr fresh ↦
      rw (fresh, quote-validate_origin q h.0)
        (rw fresh (origins_after-valid (q.origin.event_id ∷ seen) qs h.1))
]

length-origins_after :
    (seen : List Bytes) (qs : List Quotation) → length (origins_after seen qs) ≤ length qs
unfolding origins_after
length-origins_after seen [] = omega arith
length-origins_after seen (q ∷ qs) =
    ground (arith, length-origins_after seen qs, length-origins_after (q.origin.event_id ∷ seen) qs)

origin_of-origins_after :
    (seen : List Bytes) (qs : List Quotation) (e : Bytes)
    → origin_of e (origins_after seen qs) ≡ (if is_cited e seen then none else quoted_origin e qs)
unfolding origins_after
origin_of-origins_after seen [] e = ground arith
origin_of-origins_after seen (q ∷ qs) e = ground (
  arith,
  origin_of-origins_after seen qs e,
  origin_of-origins_after (q.origin.event_id ∷ seen) qs e,
  eq_bytes→eq e q.origin.event_id,
)

module _ ⦃h : Hash⦄ ⦃json : Json⦄ where
  validate_action-citing :
      (a : Action) (os : List Origin)
      → validate_action (record a { derived_from = [] }) ≡ ok tt
      → length os ≤ 32
      → validate_origins [] os ≡ ok tt
      → validate_action (record a { derived_from = os }) ≡ ok tt
  unfolding validate_action
  validate_action-citing a os valid few sound = ground arith

  -- An action that is valid without citing anything stays valid when it cites the origins of at most
  -- 32 quotations that `Quote` made; and it then cites, of every event, the origin that the first
  -- quotation of this event has, and no origin of an event that was not quoted.
  pub origins-cites :
      (a : Action) (qs : List Quotation)
      → validate_action (record a { derived_from = [] }) ≡ ok tt
      → AllQuoted qs
      → length qs ≤ 32
      → (validate_action (record a { derived_from = origins qs }) ≡ ok tt)
        × ((e : Bytes) → origin_of e (origins qs) ≡ quoted_origin e qs)
  unfolding origins
  origins-cites a qs valid quoted few = (
    validate_action-citing a (origins_after [] qs) valid
        (let n = length-origins_after [] qs in omega arith) (origins_after-valid [] qs quoted),
    origin_of-origins_after [] qs,
  )
