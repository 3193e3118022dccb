-- ===== src/Negotiation/Authority.antt =====
-- What a mandate permits.
use tos_messenger.Base.{
  >>=-eq-ok, ℕ, ◌≤◌, ◌<◌, ◌≡◌, refl, sym, ◌∙◌, ◌↔◌, Bool, true, false, leb, ltb, eq_bytes→eq, ok,
  arith, Time, pos, negsuc, unix_seconds,
}
use tos_messenger.Negotiation.Exact.{amount, at_most_lem, same_asset→eq}
use tos_messenger.Negotiation.Money.{Money, at_most}
use tos_messenger.Negotiation.Terms.{Terms, validate_terms}
use tos_messenger.Negotiation.Mandate.{
  Mandate, is_commit, is_converse, live, validate_mandate, seconds_of, permits_checks, permits_at,
  permits, permits_commit,
}

-- The terms lie inside the mandate at a time, and the owner must decide exactly when the price is
-- above the approval point.
pub record Permitted (m : Mandate) (t : Terms) (now : Time) (needs_approval : Bool) : Type 0 where
  pub seconds : ℕ
  pub is_now : now ≡ pos seconds
  pub mandate_valid : validate_mandate m ≡ ok tt
  pub terms_valid : validate_terms t ≡ ok tt
  pub in_force : seconds < m.expires_at_unix
  pub not_conversation : is_converse m.authority ≡ false
  pub same_class : t.capability_class ≡ m.capability_class
  pub same_money : t.price.asset ≡ m.max_total.asset
  pub within_ceiling : amount t.price ≤ amount m.max_total
  pub not_expired : seconds < t.not_after_unix
  pub inside_term : t.not_after_unix ≤ m.expires_at_unix
  pub decision : needs_approval ≡ ltb (amount m.approval_above) (amount t.price)

pub live-eq-ok :
    (m : Mandate) (now : Time)
    → live m now ≡ ok tt
    → (n : ℕ) × (now ≡ pos n) × (validate_mandate m ≡ ok tt) × (n < m.expires_at_unix)
unfolding live seconds_of
live-eq-ok m (pos n) h = (n, refl, ground arith, ground arith)
live-eq-ok m (negsuc n) h = absurd (ground arith)

record Checked (m : Mandate) (t : Terms) (seconds : ℕ) (needs_approval : Bool) : Type 0 where
  not_conversation : is_converse m.authority ≡ false
  same_class : t.capability_class ≡ m.capability_class
  same_money : t.price.asset ≡ m.max_total.asset
  within_ceiling : amount t.price ≤ amount m.max_total
  not_expired : seconds < t.not_after_unix
  inside_term : t.not_after_unix ≤ m.expires_at_unix
  decision : needs_approval ≡ ltb (amount m.approval_above) (amount t.price)

at_most-eq-ok :
    (m ceiling : Money) (b : Bool) → at_most m ceiling ≡ ok b → b ≡ leb (amount m) (amount ceiling)
at_most-eq-ok m ceiling b h = ((at_most_lem m ceiling b).0 h).3

permits_checks-Checked :
    (m : Mandate) (t : Terms) (seconds : ℕ) (c b : Bool)
    → permits_checks m t seconds c ≡ ok b
    → Checked m t seconds b × (c ≡ true → is_commit m.authority ≡ true)
unfolding permits_checks
permits_checks-Checked m t seconds c b h = ground (
  arith,
  at_most-eq-ok t.price m.max_total true,
  at_most-eq-ok t.price m.approval_above true,
  at_most-eq-ok t.price m.approval_above false,
  eq_bytes→eq t.capability_class m.capability_class,
  same_asset→eq t.price.asset m.max_total.asset,
)

permits_at-Permitted :
    (m : Mandate) (t : Terms) (now : Time) (c b : Bool)
    → permits_at m t now c ≡ ok b
    → Permitted m t now b × (c ≡ true → is_commit m.authority ≡ true)
unfolding permits_at
permits_at-Permitted m t now c b h =
    let (u, alive, h1) = >>=-eq-ok (live m now) _ h in
    let (n, is_now, valid, in_force) = live-eq-ok m now alive in
    let (u', terms_valid, h2) = >>=-eq-ok (validate_terms t) _ h1 in
    let (k, e, h3) = >>=-eq-ok (seconds_of (unix_seconds now)) _ h2 in
    let same : k ≡ n = unfold seconds_of in ground arith in
    let (checked, gate) = permits_checks-Checked m t k c b h3 in
    (
      record {
        seconds = n;
        is_now = is_now;
        mandate_valid = valid;
        terms_valid = terms_valid;
        in_force = in_force;
        not_conversation = checked.not_conversation;
        same_class = checked.same_class;
        same_money = checked.same_money;
        within_ceiling = checked.within_ceiling;
        not_expired = omega arith;
        inside_term = checked.inside_term;
        decision = checked.decision;
      },
      gate,
    )

-- Terms that `Permits` lets pass are valid and lie inside the mandate: its class, its asset, its
-- ceiling and its term; and the owner has to decide exactly when the price is above the approval
-- point.
pub permits-Permitted :
    (m : Mandate) (t : Terms) (now : Time) (b : Bool) → permits m t now ≡ ok b → Permitted m t now b
unfolding permits
permits-Permitted m t now b h = (permits_at-Permitted m t now false b h).0

commit_checks :
    (m : Mandate) (t : Terms) (seconds : ℕ)
    → is_commit m.authority ≡ true
    → permits_checks m t seconds true ≡ permits_checks m t seconds false
unfolding permits_checks
commit_checks m t seconds h = rw h refl

commit_permits :
    (m : Mandate) (t : Terms) (now : Time)
    → is_commit m.authority ≡ true
    → permits_commit m t now ≡ permits m t now
unfolding permits_commit permits permits_at seconds_of
commit_permits m t (pos n) h = ground (arith, commit_checks m t n)
commit_permits m t (negsuc n) h = ground arith

-- `PermitsCommit` lets pass exactly what `Permits` lets pass, with the same answer, under a mandate
-- that may commit.
pub permits_commit_lem :
    (m : Mandate) (t : Terms) (now : Time) (b : Bool)
    → (permits_commit m t now ≡ ok b) ↔ ((permits m t now ≡ ok b) × (is_commit m.authority ≡ true))
permits_commit_lem m t now b = (
  (λ h. let gate = commits h in (sym (commit_permits m t now gate) ∙ h, gate)),
  (λ p. commit_permits m t now p.1 ∙ p.0),
)
  where
    commits : permits_commit m t now ≡ ok b → is_commit m.authority ≡ true
    commits h = (permits_at-Permitted m t now true b (unfold permits_commit in h)).1 refl
