-- ===== src/Amounts/Display.antt =====
-- Amounts as text: `decimal18`, `bigZero` and `dec6` of internal/dashboard/dashboard.go, and
-- `formatToken` of cmd/curio-core/cmd_wallet_getusdfc.go.
use curio_core.Amounts.Numbers.{zero_pad, is_zero_digit, quo, int_mod, int_text, set_string}
use curio_core.Base.{
  take, magnitude, ◌%◌, is_negative, trim_right, ◌||◌, ◌++◌, ◌==◌, bytes_eq, ◌/◌, is_zero, ◌∷◌, ◌^◌,
  trim_space, if◌then◌else◌, ℤ, codes, decimal, Bytes, Option, ℕ, some, none, [],
}

abbrev pub eighteen : ℕ
eighteen = 10 ^ 18

abbrev pub frac_text : ℕ → Bytes
frac_text frac =
    if frac == 0 then [] else b'.' ∷ trim_right is_zero_digit (zero_pad 18 (decimal frac))

abbrev pub fixed_text : ℕ → Bytes
fixed_text abs = decimal (abs / eighteen) ++ frac_text (abs % eighteen)

-- `none` is a nil pointer
unfoldable pub decimal18 : Option ℤ → Bytes
decimal18 none = codes "0"
decimal18 (some n) =
    if is_zero n
    then codes "0"
    else if is_negative n
    then b'-' ∷ fixed_text (magnitude n)
    else fixed_text (magnitude n)

-- what a template function shows of a text that is a number
abbrev pub or_text : Bytes → (ℤ → Bytes) → Option ℤ → Bytes
or_text s show none = s
or_text s show (some n) = show n

abbrev pub show_trimmed : ℤ → Bytes
show_trimmed n =
    if int_mod n eighteen == 0
    then int_text (quo n eighteen)
    else int_text (quo n eighteen)
      ++ (b'.' ∷ trim_right is_zero_digit (zero_pad 18 (decimal (int_mod n eighteen))))

-- a dash stands for an amount of zero
unfoldable pub big_zero : Bytes → Bytes
big_zero s =
    if bytes_eq s [] || bytes_eq s (codes "0")
    then codes "—"
    else or_text s show_trimmed (set_string s)

abbrev pub with_frac : Bytes → Bytes → Bytes
with_frac whole [] = whole
with_frac whole (c ∷ s) = whole ++ (b'.' ∷ c ∷ s)

abbrev pub show_six : ℤ → Bytes
show_six n =
    if int_mod n eighteen == 0
    then int_text (quo n eighteen)
    else with_frac (int_text (quo n eighteen))
        (trim_right is_zero_digit (take 6 (zero_pad 18 (decimal (int_mod n eighteen)))))

unfoldable pub dec6 : Bytes → Bytes
dec6 s =
    if bytes_eq s [] || bytes_eq s (codes "0") then codes "0" else or_text s show_six (set_string s)

abbrev pub show_four : ℕ → ℤ → Bytes
show_four decs n =
    int_text (quo n (10 ^ decs))
    ++ (b'.' ∷ take 4 (zero_pad decs (decimal (int_mod n (10 ^ decs)))))

abbrev pub format_trimmed : ℕ → Bytes → Bytes
format_trimmed decs [] = codes "?"
format_trimmed decs (c ∷ s) = or_text (c ∷ s) (show_four decs) (set_string (c ∷ s))

unfoldable pub format_token : Bytes → ℕ → Bytes
format_token s decs = format_trimmed decs (trim_space s)
