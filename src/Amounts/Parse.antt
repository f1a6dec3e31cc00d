-- ===== src/Amounts/Parse.antt =====
-- cmd/curio-core/cmd_wallet.go: `parseDecimalTo18Decimals`. Errors are `none`.
use curio_core.Amounts.Numbers.{is_zero_digit, set_string}
use curio_core.Base.{
  ◌-◌, replicate, ◌++◌, trim_left, length, ltb, negate, ◌==◌, cut, trim_space, ◌∷◌, if◌then◌else◌,
  ℤ, codes, Bytes, Bool, Option, true, some, none, [],
}

abbrev pub or_empty : Option Bytes → Bytes
or_empty none = []
or_empty (some s) = s

abbrev pub or_zero : Bytes → Bytes
or_zero [] = codes "0"
or_zero (c ∷ s) = c ∷ s

abbrev pub signed : Bool → Option ℤ → Option ℤ
signed neg none = none
signed neg (some n) = if neg then some (negate n) else some n

abbrev pub combine : Bytes → Bytes → Option ℤ
combine whole frac =
    if ltb 18 (length frac)
    then none
    else set_string (
        or_zero
          (trim_left is_zero_digit (or_zero whole ++ (frac ++ replicate (18 - length frac) b'0'))))

-- the text behind the sign
abbrev pub parse_parts : Bytes → Option ℤ
parse_parts s = let parts = cut (λ c. c == b'.') s in combine parts.0 (or_empty parts.1)

abbrev pub parse_signed : Bytes → Option ℤ
parse_signed [] = none
parse_signed (c ∷ s) =
    if c == b'-'
    then signed true (parse_parts s)
    else if c == b'+'
    then parse_parts s
    else parse_parts (c ∷ s)

unfoldable pub parse_decimal_to_18_decimals : Bytes → Option ℤ
parse_decimal_to_18_decimals s = parse_signed (trim_space s)
