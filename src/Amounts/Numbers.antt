-- ===== src/Amounts/Numbers.antt =====
-- math/big: SetString and String in base 10, Quo, which cuts towards zero, and Mod, which is not
-- negative. fmt pads a text with zeros on the left where the format says so.
use curio_core.Base.{
  ◌++◌, negsuc, ◌+◌, ◌%◌, length, ◌/◌, decimal, ◌-◌, ◌*◌, if◌then◌else◌, ◌&&◌, pos, neg_ℕ,
  replicate, ◌∷◌, ◌==◌, ℤ, leb, Bytes, Bool, Option, ℕ, suc, some, none, [],
}

abbrev pub is_digit : ℕ → Bool
is_digit c = leb b'0' c && leb c b'9'

abbrev pub read_digits : ℕ → Bytes → Option ℕ
read_digits acc [] = some acc
read_digits acc (c ∷ s) =
    let rest = read_digits (acc * 10 + (c - b'0')) s in if is_digit c then rest else none

abbrev pub natural : Bytes → Option ℕ
natural [] = none
natural (c ∷ s) = read_digits 0 (c ∷ s)

abbrev pub as_pos : Option ℕ → Option ℤ
as_pos none = none
as_pos (some n) = some (pos n)

abbrev pub as_neg : Option ℕ → Option ℤ
as_neg none = none
as_neg (some n) = some (neg_ℕ n)

-- SetString
abbrev pub set_string : Bytes → Option ℤ
set_string [] = none
set_string (c ∷ s) =
    if c == b'-'
    then as_neg (natural s)
    else if c == b'+'
    then as_pos (natural s)
    else as_pos (natural (c ∷ s))

-- String
abbrev pub int_text : ℤ → Bytes
int_text (pos n) = decimal n
int_text (negsuc n) = b'-' ∷ decimal (suc n)

abbrev pub quo : ℤ → ℕ → ℤ
quo (pos n) d = pos (n / d)
quo (negsuc n) d = neg_ℕ (suc n / d)

abbrev pub int_mod : ℤ → ℕ → ℕ
int_mod (pos n) d = n % d
int_mod (negsuc n) d = if suc n % d == 0 then 0 else d - suc n % d

abbrev pub zero_pad : ℕ → Bytes → Bytes
zero_pad width s = replicate (width - length s) b'0' ++ s

abbrev pub is_zero_digit : ℕ → Bool
is_zero_digit c = c == b'0'
