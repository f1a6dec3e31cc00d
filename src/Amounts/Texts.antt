-- ===== src/Amounts/Texts.antt =====
-- Texts of digits: what trimming, padding and cutting leave of them.
use curio_core.Amounts.Numbers.{is_digit, is_zero_digit}
use curio_core.Amounts.Digits.{more, digit, digits_of, Shows}
use curio_core.Base.{
  ◌∙◌, ==_iff, Bool-cases, ◌-◌, ◌%◌, keep_byte, ◌+◌, ◌/◌, replicate, is_space, ◌++◌, ◌∷◌, ◌≤◌,
  All-append, trim_space, cut, ◌<◌, trim_right, length, ◌==◌, All, All-weaken, Bytes, Bool, ℕ, suc,
  zero, arith, ap, sym, inr, inl, false, true, some, none, refl, [], ◌≡◌,
}

abbrev pub AllDigits : Bytes → Type 0
AllDigits s = All (λ c. is_digit c ≡ true) s

pub digit_byte : (d : ℕ) → d < 10 → is_digit (b'0' + d) ≡ true
digit_byte d h = ground arith

pub Shows-AllDigits : {n : ℕ} {s : Bytes} → Shows n s → AllDigits s
Shows-AllDigits (digit d h) = (digit_byte d h, tt)
Shows-AllDigits (more n d s p h is) =
    All-append (λ c. is_digit c ≡ true) s ((b'0' + d) ∷ []) (Shows-AllDigits is)
      (digit_byte d h, tt)

pub digits_of-AllDigits : (w n : ℕ) → AllDigits (digits_of w n)
digits_of-AllDigits zero n = tt
digits_of-AllDigits (suc w) n =
    All-append (λ c. is_digit c ≡ true) (digits_of w (n / 10)) ((b'0' + n % 10) ∷ [])
      (digits_of-AllDigits w (n / 10)) (digit_byte (n % 10) (omega arith), tt)

-- the zeros that `TrimRight` takes are those that padding puts back
pub trim_right_padded :
    (s : Bytes)
    → trim_right is_zero_digit s ++ replicate (length s - length (trim_right is_zero_digit s)) b'0'
      ≡ s
trim_right_padded [] = refl
trim_right_padded (c ∷ s) = kept c (trim_right is_zero_digit s) s (trim_right_padded s)
  where
    kept :
        (c : ℕ) (t s : Bytes)
        → t ++ replicate (length s - length t) b'0' ≡ s
        → keep_byte is_zero_digit c t
            ++ replicate (suc (length s) - length (keep_byte is_zero_digit c t)) b'0'
          ≡ c ∷ s
    kept c [] s h =
        let zeros : replicate (length s) b'0' ≡ s = ap (λ n. replicate n b'0') (omega arith) ∙ h in
        elim (Bool-cases (c == b'0')) [
          | inl e ↦
              let one_more : suc (length s) - 0 ≡ suc (length s) = omega arith in
              rw (e, one_more)
                (ap (λ d. d ∷ replicate (length s) b'0') (sym ((==_iff c b'0').0 e))
                  ∙ ap (λ u. c ∷ u) zeros)
          | inr e ↦
              let one_less : suc (length s) - 1 ≡ length s = omega arith in
              rw (e, one_less) (ap (λ u. c ∷ u) zeros)
        ]
    kept c (d ∷ t) s h =
        let one_less : suc (length s) - suc (suc (length t)) ≡ length s - suc (length t) =
          omega arith in
        rw one_less (ap (λ u. c ∷ u) h)

pub trim_right-All : (P : ℕ → Type 0) (p : ℕ → Bool) (s : Bytes) → All P s → All P (trim_right p s)
trim_right-All P p [] h = tt
trim_right-All P p (c ∷ s) h = kept c (trim_right p s) h.0 (trim_right-All P p s h.1)
  where
    kept : (c : ℕ) (t : Bytes) → P c → All P t → All P (keep_byte p c t)
    kept c [] h k = elim (Bool-cases (p c)) [ inl e ↦ rw e tt | inr e ↦ rw e (h, tt) ]
    kept c (d ∷ t) h k = (h, k)

pub length-trim_right-le : (p : ℕ → Bool) (s : Bytes) → length (trim_right p s) ≤ length s
length-trim_right-le p [] = omega arith
length-trim_right-le p (c ∷ s) = kept c (trim_right p s) (length s) (length-trim_right-le p s)
  where
    kept : (c : ℕ) (t : Bytes) (n : ℕ) → length t ≤ n → length (keep_byte p c t) ≤ suc n
    kept c [] n h = ground arith
    kept c (d ∷ t) n h = omega arith

abbrev pub is_dot : ℕ → Bool
is_dot c = c == b'.'

pub cut_whole : (s : Bytes) → AllDigits s → cut is_dot s ≡ (s, none)
cut_whole [] h = refl
cut_whole (c ∷ s) h =
    let no_dot : (c == b'.') ≡ false = ground (arith, h.0) in rw (no_dot, cut_whole s h.1) refl

pub cut_dot : (s t : Bytes) → AllDigits s → cut is_dot (s ++ (b'.' ∷ t)) ≡ (s, some t)
cut_dot [] t h = refl
cut_dot (c ∷ s) t h =
    let no_dot : (c == b'.') ≡ false = ground (arith, h.0) in rw (no_dot, cut_dot s t h.1) refl

-- text without white space
abbrev pub NoSpace : Bytes → Type 0
NoSpace s = All (λ c. is_space c ≡ false) s

pub trim_right-NoSpace : (s : Bytes) → NoSpace s → trim_right is_space s ≡ s
trim_right-NoSpace [] h = refl
trim_right-NoSpace (c ∷ s) h = rw (trim_right-NoSpace s h.1) (kept c s h.0)
  where
    kept : (c : ℕ) (s : Bytes) → is_space c ≡ false → keep_byte is_space c s ≡ c ∷ s
    kept c [] h = rw h refl
    kept c (d ∷ s) h = refl

pub trim_space-NoSpace : (s : Bytes) → NoSpace s → trim_space s ≡ s
trim_space-NoSpace [] h = refl
trim_space-NoSpace (c ∷ s) h = rw h.0 (trim_right-NoSpace (c ∷ s) h)

pub digits-NoSpace : (s : Bytes) → AllDigits s → NoSpace s
digits-NoSpace s h =
    All-weaken (λ c. is_digit c ≡ true) (λ c. is_space c ≡ false) s (λ c d. ground (arith, d)) h
