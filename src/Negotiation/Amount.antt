-- ===== src/Negotiation/Amount.antt =====
-- Atomic counts: the canonical decimal strings of `Money` and the `big.Int` that they stand for.
use native.Mathlib.Nat.{zero-add}
use tos_messenger.Base.{
  subst, inr, inl, ℕ, zero, suc, ◌+◌, ◌*◌, ◌-◌, ◌/◌, ◌%◌, ◌<◌, ◌≡◌, refl, sym, ◌∙◌, ap, true, false,
  ◌&&◌, [], ◌∷◌, ◌++◌, append-nil, arith, ltb, leb, if◌then◌else◌, Bytes, all, is_digit, is_atomic,
  Bool-cases, and-eq-true,
}

-- big.Int.SetString(s, 10) on a string of digits.
unfoldable pub value_from : ℕ → Bytes → ℕ
value_from acc [] = acc
value_from acc (c ∷ s) = value_from (acc * 10 + (c - 48)) s

unfoldable pub atomic_value : Bytes → ℕ
unfolding value_from
atomic_value s = value_from 0 s

-- big.Int.String of a natural number: the digits in front of `acc`, with fuel above the number.
digits_onto : ℕ → ℕ → Bytes → Bytes
digits_onto zero n acc = acc
digits_onto (suc fuel) n acc =
    let rest = digits_onto fuel (n / 10) ((48 + n % 10) ∷ acc) in
    if ltb n 10 then (48 + n) ∷ acc else rest

unfoldable pub decimal : ℕ → Bytes
unfolding digits_onto
decimal n = digits_onto (suc n) n []

value-digits_onto :
    (fuel n : ℕ) (acc : Bytes) → n < fuel → value_from 0 (digits_onto fuel n acc) ≡ value_from n acc
unfolding value_from digits_onto
value-digits_onto zero n acc h = absurd (omega arith)
value-digits_onto (suc fuel) n acc h = elim (Bool-cases (ltb n 10)) [
  | inl e ↦ rw e (ap (λ k. value_from k acc) (omega arith))
  | inr e ↦ rw e (
      value-digits_onto fuel (n / 10) ((48 + n % 10) ∷ acc) (ground arith)
      ∙ ap (λ k. value_from k acc) (omega arith))
]

-- The printed form of a number stands for that number.
pub atomic_value-decimal : (n : ℕ) → atomic_value (decimal n) ≡ n
unfolding atomic_value decimal
atomic_value-decimal n = value-digits_onto (suc n) n [] (omega arith)

-- More fuel than the number changes nothing.
digits_onto_fuel :
    (f g n : ℕ) (acc : Bytes) → n < f → n < g → digits_onto f n acc ≡ digits_onto g n acc
unfolding digits_onto
digits_onto_fuel zero g n acc h k = absurd (omega arith)
digits_onto_fuel (suc f) zero n acc h k = absurd (omega arith)
digits_onto_fuel (suc f) (suc g) n acc h k = elim (Bool-cases (ltb n 10)) [
  | inl e ↦ rw e refl
  | inr e ↦ rw e (digits_onto_fuel f g (n / 10) ((48 + n % 10) ∷ acc) (ground arith) (ground arith))
]

digits_onto_step :
    (n c : ℕ) (acc : Bytes)
    → 0 < n
    → is_digit c ≡ true
    → digits_onto (suc (n * 10 + (c - 48))) (n * 10 + (c - 48)) acc
      ≡ digits_onto (suc n) n (c ∷ acc)
unfolding digits_onto is_digit
digits_onto_step n c acc h d =
    let m = n * 10 + (c - 48) in
    let small : ltb m 10 ≡ false = ground arith in
    let high : m / 10 ≡ n = ground arith in
    let low : 48 + m % 10 ≡ c = ground arith in
    rw (small, high, low) (digits_onto_fuel m (suc n) n (c ∷ acc) (ground arith) (omega arith))

digits_onto-value_from :
    (s acc : Bytes) (n : ℕ)
    → 0 < n
    → all is_digit s ≡ true
    → digits_onto (suc (value_from n s)) (value_from n s) acc ≡ digits_onto (suc n) n (s ++ acc)
unfolding value_from
digits_onto-value_from [] acc n h d = refl
digits_onto-value_from (c ∷ s) acc n h d =
    let (dc, ds) = and-eq-true (is_digit c) (all is_digit s) d in
    digits_onto-value_from s acc (n * 10 + (c - 48)) (omega arith) ds
    ∙ digits_onto_step n c (s ++ acc) h dc

digits_onto_digit :
    (c : ℕ) (acc : Bytes) → is_digit c ≡ true → digits_onto (suc (c - 48)) (c - 48) acc ≡ c ∷ acc
unfolding digits_onto is_digit
digits_onto_digit c acc h = ground arith

first_digit : (c : ℕ) → (leb 49 c && leb c 57) ≡ true → is_digit c ≡ true
unfolding is_digit
first_digit c h = ground arith

-- A canonical amount is the printed form of its count.
pub decimal-atomic_value : (s : Bytes) → is_atomic s ≡ true → decimal (atomic_value s) ≡ s
unfolding decimal atomic_value is_atomic
decimal-atomic_value [] h = cc
decimal-atomic_value (c ∷ []) h = rw zero-add (digits_onto_digit c [] h)
decimal-atomic_value (c ∷ d ∷ r) h =
    let (front, short) = and-eq-true (leb 49 c && leb c 57 && all is_digit (d ∷ r)) _ h in
    let (first, rest) = and-eq-true (leb 49 c && leb c 57) (all is_digit (d ∷ r)) front in
    rw zero-add (
      digits_onto-value_from (d ∷ r) [] (c - 48) (ground arith) rest
      ∙ subst (λ t. digits_onto (suc (c - 48)) (c - 48) t ≡ c ∷ d ∷ r) (sym (append-nil (d ∷ r)))
          (digits_onto_digit c (d ∷ r) (first_digit c first)))

-- Two canonical amounts with one count are the same string.
pub atomic_value-injective :
    (s t : Bytes)
    → is_atomic s ≡ true
    → is_atomic t ≡ true
    → atomic_value s ≡ atomic_value t
    → s ≡ t
atomic_value-injective s t hs ht e =
    sym (decimal-atomic_value s hs) ∙ ap decimal e ∙ decimal-atomic_value t ht
