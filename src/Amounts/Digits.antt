-- ===== src/Amounts/Digits.antt =====
-- Decimal digits: what they read as, their padding to a fixed width, and their zeros.
use curio_core.Amounts.Numbers.{is_digit, zero_pad, read_digits}
use native.Mathlib.Nat.{pow-suc}
use curio_core.Base.{
  append_assoc, ◌-◌, append-nil, ◌==◌, Bool-cases, ◌∙◌, ◌∷◌, ◌%◌, ◌*◌, length-append, subst,
  decimal_digits, ◌++◌, ◌+◌, length, replicate, ◌/◌, ◌^◌, ◌<◌, decimal, Bytes, Option, ℕ, suc, zero,
  arith, ap, sym, inr, inl, some, none, refl, [], ◌≡◌,
}

-- the digits that show a number, without a leading zero but for 0 itself
pub data Shows : ℕ → Bytes → Type 0 where
  digit : (d : ℕ) → d < 10 → Shows d ((b'0' + d) ∷ [])
  more :
      (n d : ℕ) (s : Bytes)
      → 0 < n
      → d < 10
      → Shows n s
      → Shows (n * 10 + d) (s ++ ((b'0' + d) ∷ []))

decimal_digits-Shows :
    (fuel n : ℕ) (acc : Bytes)
    → n < fuel
    → (s : Bytes) × (decimal_digits fuel n acc ≡ s ++ acc) × Shows n s
decimal_digits-Shows zero n acc h = absurd (omega arith)
decimal_digits-Shows (suc fuel) n acc h = elim (Bool-cases (n / 10 == 0)) [
  | inl e ↦
      let small : n ≡ n % 10 = ground (arith, e) in
      (
        (b'0' + n % 10) ∷ [],
        rw e refl,
        subst (λ k. Shows k ((b'0' + n % 10) ∷ [])) (sym small) (digit (n % 10) (omega arith)),
      )
  | inr e ↦
      let (s, shown, is) =
        decimal_digits-Shows fuel (n / 10) ((b'0' + n % 10) ∷ acc) (ground (arith, e)) in
      let whole : n / 10 * 10 + n % 10 ≡ n = omega arith in
      (
        s ++ ((b'0' + n % 10) ∷ []),
        rw e (shown ∙ sym (append_assoc s ((b'0' + n % 10) ∷ []) acc)),
        subst (λ k. Shows k (s ++ ((b'0' + n % 10) ∷ []))) whole
            (more (n / 10) (n % 10) s (ground (arith, e)) (omega arith) is),
      )
]

pub decimal-Shows : (n : ℕ) → Shows n (decimal n)
unfolding decimal
decimal-Shows n =
    let (s, shown, is) = decimal_digits-Shows (suc n) n [] (omega arith) in
    subst (λ t. Shows n t) (sym (shown ∙ append-nil s)) is

abbrev pub and_read : Option ℕ → Bytes → Option ℕ
and_read none s = none
and_read (some n) s = read_digits n s

pub read_digits-append :
    (acc : ℕ) (s t : Bytes) → read_digits acc (s ++ t) ≡ and_read (read_digits acc s) t
read_digits-append acc [] t = refl
read_digits-append acc (c ∷ s) t = elim (Bool-cases (is_digit c)) [
  | inl e ↦ rw e (read_digits-append (acc * 10 + (c - b'0')) s t)
  | inr e ↦ rw e refl
]

read_digit : (acc d : ℕ) → d < 10 → read_digits acc ((b'0' + d) ∷ []) ≡ some (acc * 10 + d)
read_digit acc d h = ground arith

pub read_digits-Shows : {n : ℕ} {s : Bytes} → Shows n s → read_digits 0 s ≡ some n
read_digits-Shows (digit d h) = ground arith
read_digits-Shows (more n d s p h is) =
    read_digits-append 0 s ((b'0' + d) ∷ [])
    ∙ ap (λ o. and_read o ((b'0' + d) ∷ [])) (read_digits-Shows is)
    ∙ read_digit n d h

-- exactly `w` digits
abbrev pub digits_of : ℕ → ℕ → Bytes
digits_of zero n = []
digits_of (suc w) n = digits_of w (n / 10) ++ ((b'0' + n % 10) ∷ [])

pub length-digits_of : (w n : ℕ) → length (digits_of w n) ≡ w
length-digits_of zero n = refl
length-digits_of (suc w) n = omega (
  arith,
  length-digits_of w (n / 10),
  length-append (digits_of w (n / 10)) ((b'0' + n % 10) ∷ []),
)

pub read_digits-digits_of :
    (w acc n : ℕ) → n < 10 ^ w → read_digits acc (digits_of w n) ≡ some (acc * 10 ^ w + n)
read_digits-digits_of zero acc n h =
    let nothing : acc ≡ acc * 1 + n = omega arith in ap (λ k. some k) nothing
read_digits-digits_of (suc w) acc n h =
    let ten : 10 ^ suc w ≡ 10 ^ w * 10 = pow-suc 10 w in
    let value : (acc * 10 ^ w + n / 10) * 10 + n % 10 ≡ acc * 10 ^ suc w + n =
      rw ten (grind arith) in
    read_digits-append acc (digits_of w (n / 10)) ((b'0' + n % 10) ∷ [])
    ∙ ap (λ o. and_read o ((b'0' + n % 10) ∷ []))
        (read_digits-digits_of w acc (n / 10) (omega (arith, ten)))
    ∙ read_digit (acc * 10 ^ w + n / 10) (n % 10) (omega arith)
    ∙ ap (λ k. some k) value

replicate_snoc : (c w : ℕ) → replicate w c ++ (c ∷ []) ≡ c ∷ replicate w c
replicate_snoc c zero = refl
replicate_snoc c (suc w) = ap (λ s. c ∷ s) (replicate_snoc c w)

digits_of_zero : (w : ℕ) → digits_of w 0 ≡ replicate w b'0'
digits_of_zero zero = refl
digits_of_zero (suc w) = ap (λ s. s ++ (b'0' ∷ [])) (digits_of_zero w) ∙ replicate_snoc b'0' w

pub length-Shows : {n : ℕ} {s : Bytes} → Shows n s → 0 < length s
length-Shows (digit d h) = omega arith
length-Shows (more n d s p h is) = omega (arith, length-append s ((b'0' + d) ∷ []), length-Shows is)

pub zero_pad-Shows :
    (w : ℕ) {n : ℕ} {s : Bytes} → Shows n s → n < 10 ^ w → 0 < w → zero_pad w s ≡ digits_of w n
zero_pad-Shows zero is h p = absurd (omega arith)
zero_pad-Shows (suc w) (digit d k) h p =
    let none_above : d / 10 ≡ 0 = omega arith in
    let itself : d % 10 ≡ d = omega arith in
    let width : suc w - 1 ≡ w = omega arith in
    rw (none_above, itself, width) (ap (λ s. s ++ ((b'0' + d) ∷ [])) (sym (digits_of_zero w)))
zero_pad-Shows (suc w) (more n d s q k is) h p =
    let above : (n * 10 + d) / 10 ≡ n = omega arith in
    let last : (n * 10 + d) % 10 ≡ d = omega arith in
    let fits : n < 10 ^ w = omega (arith, pow-suc 10 w) in
    let width : suc w - length (s ++ ((b'0' + d) ∷ [])) ≡ w - length s =
      omega (arith, length-append s ((b'0' + d) ∷ [])) in
    rw (above, last, width)
      (sym (append_assoc (replicate (w - length s) b'0') s ((b'0' + d) ∷ []))
        ∙ ap (λ t. t ++ ((b'0' + d) ∷ [])) (zero_pad-Shows w is fits (positive w n fits q)))
  where
    positive : (w n : ℕ) → n < 10 ^ w → 0 < n → 0 < w
    positive zero n f q = absurd (omega arith)
    positive (suc w) n f q = omega arith
