-- ===== src/Commands/Versions.antt =====
-- cmd/curio-core/cmd_upgrade.go: `compareVersions`. The results -1, 0 and +1 are `lt`, `eq` and `gt`.
pub mod Laws
use curio_core.Amounts.Parse.{or_empty}
use curio_core.Amounts.Numbers.{natural}
use Prim.Native.Nat.{Ordering, lt, eq, gt}
use curio_core.Base.{
  split_on, map, trim_space, ◌||◌, ◌^◌, ltb, ◌==◌, if◌then◌else◌, ◌∷◌, cut, Bytes, List, ℕ, suc,
  zero, arith, ap, sym, inr, inl, false, true, some, none, refl, [], Bool, Option,
}

-- the first difference decides
abbrev pub or_else : Ordering → Ordering → Ordering
or_else lt o = lt
or_else eq o = o
or_else gt o = gt

abbrev pub order_of : ℕ → ℕ → Ordering
order_of a b = if ltb a b then lt else if ltb b a then gt else eq

-- strings.Compare
abbrev pub compare_text : Bytes → Bytes → Ordering
compare_text [] [] = eq
compare_text [] (d ∷ t) = lt
compare_text (c ∷ s) [] = gt
compare_text (c ∷ s) (d ∷ t) = or_else (order_of c d) (compare_text s t)

-- a field that is not there is 0
abbrev pub compare_numeric_fields : List ℕ → List ℕ → Ordering
compare_numeric_fields [] [] = eq
compare_numeric_fields [] (b ∷ ys) = or_else (order_of 0 b) (compare_numeric_fields [] ys)
compare_numeric_fields (a ∷ xs) [] = or_else (order_of a 0) (compare_numeric_fields xs [])
compare_numeric_fields (a ∷ xs) (b ∷ ys) = or_else (order_of a b) (compare_numeric_fields xs ys)

abbrev pub compare_pre : Bytes → Bytes → Ordering
compare_pre [] [] = eq
compare_pre [] (d ∷ t) = gt
compare_pre (c ∷ s) [] = lt
compare_pre (c ∷ s) (d ∷ t) = compare_text (c ∷ s) (d ∷ t)

-- strconv.Atoi of a text without a sign, where an error counts as 0
abbrev pub atoi : Option ℕ → ℕ
atoi none = 0
atoi (some n) = if ltb n (2 ^ 63) then n else 0

abbrev pub trim_v : Bytes → Bytes
trim_v [] = []
trim_v (c ∷ s) = if c == b'v' then s else c ∷ s

-- no field has a sign: the text ends at the first one
unfoldable pub split_version : Bytes → List ℕ × Bytes
split_version v =
    let parts = cut (λ c. c == b'-' || c == b'+') (trim_v (trim_space v)) in
    (map (λ f. atoi (natural f)) (split_on b'.' parts.0), or_empty parts.1)

abbrev pub compare_split : List ℕ × Bytes → List ℕ × Bytes → Ordering
compare_split a b = or_else (compare_numeric_fields a.0 b.0) (compare_pre a.1 b.1)

unfoldable pub compare_versions : Bytes → Bytes → Ordering
compare_versions a b = compare_split (split_version a) (split_version b)
