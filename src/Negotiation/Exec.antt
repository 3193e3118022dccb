-- ===== src/Negotiation/Exec.antt =====
-- Actions of a negotiation: a method of `*Negotiation` acts on the negotiation and on the budget that
-- it shares with other negotiations, and what it wrote before an error stays written.
use tos_messenger.Base.{Bool, true, false, Result, ok, err}
use tos_messenger.Negotiation.Errors.{NegotiationError}
use tos_messenger.Negotiation.Budget.{Budget}
use tos_messenger.Negotiation.State.{Negotiation, World}

abbrev pub Exec : Type 0 → Type 0
Exec A = World → World × Result NegotiationError A

abbrev pub continue :
    {A B : Type 0}
    → World × Result NegotiationError A
    → (A → Exec B)
    → World × Result NegotiationError B
continue (w, ok a) f = f a w
continue (w, err e) f = (w, err e)

infixl 5 ◌>>=◌ ◌>>◌
abbrev pub ◌>>=◌ : {A B : Type 0} → Exec A → (A → Exec B) → Exec B
◌>>=◌ m f w = continue (m w) f

abbrev pub ◌>>◌ : {B : Type 0} → Exec (Unit {0}) → Exec B → Exec B
m >> k = m >>= λ _. k

abbrev pub lift : {A : Type 0} → Result NegotiationError A → Exec A
lift r w = (w, r)

abbrev pub this : Exec Negotiation
this w = (w, ok w.negotiation)

abbrev pub become : Negotiation → Exec (Unit {0})
become n w = (record w { negotiation = n }, ok tt)

-- A call on the shared budget.
abbrev pub on_budget : (Budget → Budget × Result NegotiationError (Unit {0})) → Exec (Unit {0})
on_budget f w = let (b, r) = f w.budget in (record w { budget = b }, r)

-- `if condition { … }`
abbrev pub when : Bool → Exec (Unit {0}) → Exec (Unit {0})
when true m = m
when false m = lift (ok tt)
