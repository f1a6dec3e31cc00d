-- ===== src/Amounts/RoundTrip.antt =====
-- What `decimal18` prints, `parseDecimalTo18Decimals` reads back.
use curio_core.Amounts.Texts.{
  cut_dot, trim_right-All, digits_of-AllDigits, cut_whole, digits-NoSpace, trim_right_padded,
  AllDigits, Shows-AllDigits, trim_space-NoSpace, NoSpace, length-trim_right-le,
}
use curio_core.Amounts.Display.{frac_text, decimal18, eighteen, fixed_text}
use curio_core.Amounts.Parse.{
  signed, combine, parse_signed, parse_decimal_to_18_decimals, parse_parts, or_zero,
}
use curio_core.Amounts.Numbers.{zero_pad, read_digits, as_pos, is_digit, is_zero_digit, set_string}
use curio_core.Amounts.Digits.{
  length-Shows, length-digits_of, read_digits-digits_of, read_digits-Shows, and_read,
  read_digits-append, decimal-Shows, zero_pad-Shows, more, digit, digits_of, Shows,
}
use curio_core.Base.{
  subst, append-nil, ltb, negsuc, ◌*◌, ℤ, decimal, pos, ◌∙◌, ==_iff, Bool-cases, ◌-◌, ◌%◌, ◌+◌,
  trim_left, ◌/◌, replicate, is_space, ◌++◌, ◌∷◌, ◌≤◌, All-append, ◌<◌, trim_right, length, ◌==◌,
  Bytes, ℕ, suc, zero, arith, ap, sym, inr, inl, false, true, some, refl, [], ◌≡◌,
}

-- leading zeros do not count
read_trimmed :
    (s : Bytes)
    → AllDigits s
    → set_string (or_zero (trim_left is_zero_digit s)) ≡ as_pos (read_digits 0 s)
read_trimmed [] h = refl
read_trimmed (c ∷ s) h = elim (Bool-cases (c == b'0')) [
  | inl e ↦
      let is_zero_byte : c ≡ b'0' = (==_iff c b'0').0 e in
      rw e (rw is_zero_byte (read_trimmed s h.1))
  | inr e ↦
      let no_minus : (c == b'-') ≡ false = ground (arith, h.0) in
      let no_plus : (c == b'+') ≡ false = ground (arith, h.0) in rw e (rw (no_minus, no_plus) refl)
]

or_zero-Shows : {n : ℕ} {s : Bytes} → Shows n s → or_zero s ≡ s
or_zero-Shows (digit d h) = refl
or_zero-Shows (more n d [] p h is) = refl
or_zero-Shows (more n d (c ∷ s) p h is) = refl

-- what is read of a whole part and a fraction that is padded to 18 digits
combine_digits :
    (q r : ℕ) (frac : Bytes)
    → r < eighteen
    → length frac ≤ 18
    → frac ++ replicate (18 - length frac) b'0' ≡ digits_of 18 r
    → combine (decimal q) frac ≡ some (pos (q * eighteen + r))
combine_digits q r frac small short padded =
    let not_long : ltb 18 (length frac) ≡ false = ground (arith, short) in
    let whole = Shows-AllDigits (decimal-Shows q) in
    rw (not_long, or_zero-Shows (decimal-Shows q), padded)
      (read_trimmed (decimal q ++ digits_of 18 r) (
          All-append (λ c. is_digit c ≡ true) (decimal q) (digits_of 18 r) whole
            (digits_of-AllDigits 18 r))
        ∙ ap as_pos (
            read_digits-append 0 (decimal q) (digits_of 18 r)
            ∙ ap (λ o. and_read o (digits_of 18 r)) (read_digits-Shows (decimal-Shows q))
            ∙ read_digits-digits_of 18 q r small))

padded_frac : (r : ℕ) → r < eighteen → zero_pad 18 (decimal r) ≡ digits_of 18 r
padded_frac r small = zero_pad-Shows 18 (decimal-Shows r) small (omega arith)

trimmed_frac :
    (r : ℕ)
    → r < eighteen
    → (length (trim_right is_zero_digit (zero_pad 18 (decimal r))) ≤ 18)
      × (trim_right is_zero_digit (zero_pad 18 (decimal r))
            ++ replicate (18 - length (trim_right is_zero_digit (zero_pad 18 (decimal r)))) b'0'
          ≡ digits_of 18 r)
trimmed_frac r small =
    let size : length (zero_pad 18 (decimal r)) ≡ 18 =
      ap length (padded_frac r small) ∙ length-digits_of 18 r in
    let frac = trim_right is_zero_digit (zero_pad 18 (decimal r)) in
    (
      omega (arith, size, length-trim_right-le is_zero_digit (zero_pad 18 (decimal r))),
      ap (λ n. frac ++ replicate (n - length frac) b'0') (sym size)
          ∙ trim_right_padded (zero_pad 18 (decimal r))
          ∙ padded_frac r small,
    )

parse_parts-fixed_text : (m : ℕ) → parse_parts (fixed_text m) ≡ some (pos m)
parse_parts-fixed_text m =
    let q = m / eighteen in
    let r = m % eighteen in
    let whole = Shows-AllDigits (decimal-Shows q) in
    let value : q * eighteen + r ≡ m = omega arith in
    elim (Bool-cases (r == 0)) [
      | inl e ↦
          let sum : q * eighteen + 0 ≡ m = ground (arith, e, value) in
          rw (e, append-nil (decimal q), cut_whole (decimal q) whole)
            (combine_digits q 0 [] (omega arith) (omega arith) refl ∙ ap (λ k. some (pos k)) sum)
      | inr e ↦
          let small : r < eighteen = omega arith in
          let (short, padded) = trimmed_frac r small in
          rw (e, cut_dot (decimal q) (trim_right is_zero_digit (zero_pad 18 (decimal r))) whole)
            (combine_digits q r (trim_right is_zero_digit (zero_pad 18 (decimal r))) small short
                padded
              ∙ ap (λ k. some (pos k)) value)
    ]

nothing-Shows : {n : ℕ} → Shows n [] → ⊥
nothing-Shows is = absurd (ground (arith, read_digits-Shows is, length-Shows is))

parse_signed-fixed_text : (m : ℕ) → parse_signed (fixed_text m) ≡ parse_parts (fixed_text m)
parse_signed-fixed_text m =
    from_digit (decimal (m / eighteen)) (frac_text (m % eighteen)) (decimal-Shows (m / eighteen))
      (Shows-AllDigits (decimal-Shows (m / eighteen)))
  where
    from_digit :
        {n : ℕ} (s t : Bytes)
        → Shows n s
        → AllDigits s
        → parse_signed (s ++ t) ≡ parse_parts (s ++ t)
    from_digit [] t is h = absurd (nothing-Shows is)
    from_digit (c ∷ s) t is h =
        let no_minus : (c == b'-') ≡ false = ground (arith, h.0) in
        let no_plus : (c == b'+') ≡ false = ground (arith, h.0) in rw (no_minus, no_plus) refl

frac_text-NoSpace : (r : ℕ) → r < eighteen → NoSpace (frac_text r)
frac_text-NoSpace r small = elim (Bool-cases (r == 0)) [
  | inl e ↦ rw e tt
  | inr e ↦ rw e (
    refl,
    trim_right-All (λ c. is_space c ≡ false) is_zero_digit (zero_pad 18 (decimal r))
        (digits-NoSpace (zero_pad 18 (decimal r))
          (subst AllDigits (sym (padded_frac r small)) (digits_of-AllDigits 18 r))),
  )
]

fixed_text-NoSpace : (m : ℕ) → NoSpace (fixed_text m)
fixed_text-NoSpace m =
    All-append (λ c. is_space c ≡ false) (decimal (m / eighteen)) (frac_text (m % eighteen))
      (digits-NoSpace (decimal (m / eighteen)) (Shows-AllDigits (decimal-Shows (m / eighteen))))
      (frac_text-NoSpace (m % eighteen) (omega arith))

-- Whatever amount `decimal18` prints, `parseDecimalTo18Decimals` reads the printed text as that
-- amount, negative ones included.
pub parse_decimal-decimal18 : (n : ℤ) → parse_decimal_to_18_decimals (decimal18 (some n)) ≡ some n
unfolding parse_decimal_to_18_decimals decimal18
parse_decimal-decimal18 (pos zero) = refl
parse_decimal-decimal18 (pos (suc k)) =
    rw (trim_space-NoSpace (fixed_text (suc k)) (fixed_text-NoSpace (suc k)))
      (parse_signed-fixed_text (suc k) ∙ parse_parts-fixed_text (suc k))
parse_decimal-decimal18 (negsuc k) =
    rw (trim_space-NoSpace (b'-' ∷ fixed_text (suc k)) (refl, fixed_text-NoSpace (suc k)))
      (ap (signed true) (parse_parts-fixed_text (suc k)))
