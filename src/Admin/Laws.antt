-- ===== src/Admin/Laws.antt =====
-- internal/admin/admin.go: the decoder is the inverse of an encoder.
use curio_core.Admin.{join_nibbles, hex_decode, hex_nibble}
use curio_core.Base.{
  subst, ◌↔◌, ◌*◌, map, Option, none, refl, ◌-◌, ◌+◌, ◌%◌, ◌/◌, lower_letter, ltb, ◌<◌, All, ◌∷◌,
  if◌then◌else◌, ◌≡◌, Bytes, ℕ, arith, some, [],
}

-- the digits of a byte, in lower case
abbrev pub hex_digit : ℕ → ℕ
hex_digit n = if ltb n 10 then b'0' + n else b'a' + (n - 10)

abbrev pub hex_encode : Bytes → Bytes
hex_encode [] = []
hex_encode (b ∷ bs) = hex_digit (b / 16) ∷ hex_digit (b % 16) ∷ hex_encode bs

abbrev pub AllBytes : Bytes → Type 0
AllBytes = All (λ b. b < 256)

nibble_digit : (c n : ℕ) → hex_nibble c ≡ some n → (n < 16) × (lower_letter c ≡ hex_digit n)
nibble_digit c n h = ground (arith, h)

digit_nibble : (c n : ℕ) → n < 16 → lower_letter c ≡ hex_digit n → hex_nibble c ≡ some n
digit_nibble c n l h = ground (arith, l, h)

-- one byte
join_nibbles-some :
    (hi lo : Option ℕ) (rest : Option Bytes) (out : Bytes)
    → join_nibbles hi lo rest ≡ some out
    → (h : ℕ) × (l : ℕ) × (tail : Bytes) × (hi ≡ some h)
      × (lo ≡ some l)
      × (rest ≡ some tail)
      × ((h * 16 + l) ∷ tail ≡ out)
join_nibbles-some none lo rest out e = absurd (ground (arith, e))
join_nibbles-some (some h) none rest out e = absurd (ground (arith, e))
join_nibbles-some (some h) (some l) none out e = absurd (ground (arith, e))
join_nibbles-some (some h) (some l) (some tail) out e =
    (h, l, tail, refl, refl, refl, ground (arith, e))

decode-encoded :
    (s out : Bytes) → hex_decode s ≡ some out → (map lower_letter s ≡ hex_encode out) × AllBytes out
decode-encoded [] [] e = (refl, tt)
decode-encoded [] (b ∷ out) e = absurd (ground (arith, e))
decode-encoded (c ∷ []) out e = absurd (ground (arith, e))
decode-encoded (c ∷ d ∷ s) out e =
    let (h, l, tail, hi, lo, rest, same) =
      join_nibbles-some (hex_nibble c) (hex_nibble d) (hex_decode s) out e in
    let (small_h, char_h) = nibble_digit c h hi in
    let (small_l, char_l) = nibble_digit d l lo in
    let (chars, bytes) = decode-encoded s tail rest in
    let high : (h * 16 + l) / 16 ≡ h = omega arith in
    let low : (h * 16 + l) % 16 ≡ l = omega arith in
    subst (λ o. (map lower_letter (c ∷ d ∷ s) ≡ hex_encode o) × AllBytes o) same
      (rw (high, low, char_h, char_l, chars) refl, (omega arith, bytes))

encoded-decode :
    (s out : Bytes) → map lower_letter s ≡ hex_encode out → AllBytes out → hex_decode s ≡ some out
encoded-decode [] [] e h = refl
encoded-decode [] (b ∷ out) e h = absurd (ground (arith, e))
encoded-decode (c ∷ s) [] e h = absurd (ground (arith, e))
encoded-decode (c ∷ []) (b ∷ out) e h = absurd (ground (arith, e))
encoded-decode (c ∷ d ∷ s) (b ∷ out) e h =
    let hi = digit_nibble c (b / 16) (omega (arith, h.0)) (ground (arith, e)) in
    let lo = digit_nibble d (b % 16) (omega arith) (ground (arith, e)) in
    let rest = encoded-decode s out (ground (arith, e)) h.1 in
    let whole : b / 16 * 16 + b % 16 ≡ b = omega arith in rw (hi, lo, rest, whole) refl

-- `hexDecode` reads a text as some bytes exactly when the text, in lower case, is the encoding of
-- these bytes by two digits each.
pub hex_decode_iff :
    (s out : Bytes)
    → (hex_decode s ≡ some out) ↔ ((map lower_letter s ≡ hex_encode out) × AllBytes out)
hex_decode_iff s out = (decode-encoded s out, λ h. encoded-decode s out h.0 h.1)
