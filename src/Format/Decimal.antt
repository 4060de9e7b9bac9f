-- ===== src/Format/Decimal.antt =====
-- The text of an int is read back by atoi.
use dreamboat_rpc.Prelude.{
  ℕ, zero, suc, ◌+◌, ◌*◌, ◌-◌, ◌/◌, ◌%◌, ◌^◌, ◌≤◌, ◌<◌, ◌≡◌, ap, ◌∙◌, subst, List, [], ◌∷◌, ◌++◌,
  true, false, arith, ◌==◌, ltb, leb, inl, inr, Bool-cases, lt→ltb,
}
use dreamboat_rpc.Run.{ok}
use dreamboat_rpc.Args.{is_digit, digits, signed, atoi}
use dreamboat_rpc.Format.{decimal, int_text}

abbrev AllDigits : List ℕ → Type 0
AllDigits [] = Unit {0}
AllDigits (b ∷ s) = (is_digit b ≡ true) × AllDigits s

AllDigits-concat : (s : List ℕ) (b : ℕ) → AllDigits s → is_digit b ≡ true → AllDigits (s ++ b ∷ [])
AllDigits-concat [] b v w = (w, tt)
AllDigits-concat (c ∷ s) b v w = (v.0, AllDigits-concat s b v.1 w)

digits-concat :
    (s : List ℕ) (b value : ℕ)
    → AllDigits s
    → is_digit b ≡ true
    → digits value (s ++ b ∷ []) ≡ digits value s * 10 + (b - b'0')
unfolding digits
digits-concat [] b value v w = rw w
digits-concat (c ∷ s) b value v w = rw v.0 (digits-concat s b (value * 10 + (c - b'0')) v.1 w)

one_digit : (n : ℕ) → n < 10 → is_digit (b'0' + n) ≡ true
one_digit n h = ground arith

decimal-AllDigits : (fuel n : ℕ) → AllDigits (decimal fuel n)
unfolding decimal
decimal-AllDigits zero n = tt
decimal-AllDigits (suc fuel) n = elim (Bool-cases (ltb n 10)) [
  | inl e ↦ rw e (one_digit n (ground arith), tt)
  | inr e ↦ rw e (
      AllDigits-concat (decimal fuel (n / 10)) (b'0' + n % 10) (decimal-AllDigits fuel (n / 10))
        (one_digit (n % 10) (omega arith)))
]

pow_suc : (fuel : ℕ) → 10 ^ suc fuel ≡ 10 ^ fuel * 10
pow_suc fuel = omega arith

div_less : (n m : ℕ) → n < m * 10 → n / 10 < m
div_less n m h = omega arith

digits-decimal : (fuel n : ℕ) → n < 10 ^ fuel → digits 0 (decimal fuel n) ≡ n
unfolding decimal digits
digits-decimal zero n h = omega arith
digits-decimal (suc fuel) n h = elim (Bool-cases (ltb n 10)) [
  | inl e ↦ let digit = one_digit n (ground arith) in rw (e, digit) (omega arith)
  | inr e ↦
      let less : n / 10 < 10 ^ fuel =
        div_less n (10 ^ fuel) (subst (λ k. n < k) (pow_suc fuel) h) in
      let ih = digits-decimal fuel (n / 10) less in
      let last = one_digit (n % 10) (omega arith) in
      rw e (
        digits-concat (decimal fuel (n / 10)) (b'0' + n % 10) 0 (decimal-AllDigits fuel (n / 10))
          last
        ∙ omega (arith, ih))
]

-- No digit is white space or a sign.
first_digit :
    (b : ℕ) (s : List ℕ)
    → is_digit b ≡ true
    → (atoi (b ∷ s) ≡ signed (b ∷ s)) × ((b == b'-') ≡ false) × ((b == b'+') ≡ false)
unfolding atoi
first_digit b s h = (ground arith, ground arith, ground arith)

atoi-digits : (s : List ℕ) (n : ℕ) → AllDigits s → digits 0 s ≡ n → n < 2 ^ 31 → atoi s ≡ ok n
unfolding atoi signed digits
atoi-digits [] n v e low = ap ok e
atoi-digits (b ∷ s) n v e low =
    let (first, minus, plus) = first_digit b s v.0 in
    first ∙ rw (minus, plus, e, lt→ltb n (2 ^ 31) low)

atoi-minus :
    (s : List ℕ) (n : ℕ) → digits 0 s ≡ n → 0 < n → n ≤ 2 ^ 31 → atoi (b'-' ∷ s) ≡ ok (2 ^ 32 - n)
unfolding atoi signed
atoi-minus s n e some_value low =
    let fits : leb n (2 ^ 31) ≡ true = ground arith in
    let positive : (n == 0) ≡ false = ground arith in rw (e, fits, positive)

-- Reading the text of an int gives the int.
pub atoi-int_text : (n : ℕ) → n < 2 ^ 32 → atoi (int_text n) ≡ ok n
unfolding int_text
atoi-int_text n h = elim (Bool-cases (ltb n (2 ^ 31))) [
  | inl e ↦
      let low : n < 2 ^ 31 = ground arith in
      rw e (
        atoi-digits (decimal 10 n) n (decimal-AllDigits 10 n) (digits-decimal 10 n (omega arith))
          low)
  | inr e ↦
      let high : 2 ^ 31 ≤ n = ground arith in
      let value = digits-decimal 10 (2 ^ 32 - n) (omega arith) in
      rw e (
        atoi-minus (decimal 10 (2 ^ 32 - n)) (2 ^ 32 - n) value (omega arith) (omega arith)
        ∙ ap ok (omega arith))
]
