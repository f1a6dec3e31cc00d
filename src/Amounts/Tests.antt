-- ===== src/Amounts/Tests.antt =====
-- Amounts as they are printed and read.
use curio_core.Amounts.RoundTrip.{parse_decimal-decimal18}
use curio_core.Amounts.Parse.{parse_decimal_to_18_decimals}
use curio_core.Amounts.Display.{decimal18, dec6}
use curio_core.Base.{decimal, codes, negsuc, pos, some, refl, ◌≡◌}

prints_half : decimal18 (some (pos 1500000000000000000)) ≡ codes "1.5"
unfolding decimal18 decimal
prints_half = refl

prints_one_unit : decimal18 (some (pos 1)) ≡ codes "0.000000000000000001"
unfolding decimal18 decimal
prints_one_unit = refl

shows_six : dec6 (codes "1234567000000000000") ≡ codes "1.234567"
unfolding dec6 decimal
shows_six = refl

reads_plain : parse_decimal_to_18_decimals (codes " 0.25 ") ≡ some (pos 250000000000000000)
unfolding parse_decimal_to_18_decimals
reads_plain = refl

-- a sign behind the point, or a second one, is taken as well
reads_sign_in_fraction : parse_decimal_to_18_decimals (codes ".+5") ≡ some (pos 50000000000000000)
unfolding parse_decimal_to_18_decimals
reads_sign_in_fraction = refl

reads_two_signs : parse_decimal_to_18_decimals (codes "--5") ≡ some (pos 5000000000000000000)
unfolding parse_decimal_to_18_decimals
reads_two_signs = refl

parse_decimal-decimal18_example :
    parse_decimal_to_18_decimals (decimal18 (some (negsuc 1499))) ≡ some (negsuc 1499)
parse_decimal-decimal18_example = parse_decimal-decimal18 (negsuc 1499)
