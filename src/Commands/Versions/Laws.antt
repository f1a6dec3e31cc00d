-- ===== src/Commands/Versions/Laws.antt =====
-- cmd/curio-core/cmd_upgrade.go: versions are ordered.
use Prim.Native.Nat.{Ordering, lt, eq, gt}
use curio_core.Commands.Versions.{
  split_version, compare_text, compare_numeric_fields, compare_versions, compare_pre, or_else,
  order_of,
}
use curio_core.Base.{◌∷◌, ◌∙◌, Bytes, List, sym, [], ◌≡◌, ℕ, arith, ap, refl}

abbrev pub opposite : Ordering → Ordering
opposite lt = gt
opposite eq = eq
opposite gt = lt

-- what two comparisons in a row say of the outer ones
abbrev pub Chain : Ordering → Ordering → Ordering → Type 0
Chain eq y z = z ≡ y
Chain lt lt z = z ≡ lt
Chain lt eq z = z ≡ lt
Chain lt gt z = Unit
Chain gt lt z = Unit
Chain gt eq z = z ≡ gt
Chain gt gt z = z ≡ gt

or_else-opposite : (x y : Ordering) → opposite (or_else x y) ≡ or_else (opposite x) (opposite y)
or_else-opposite lt y = refl
or_else-opposite eq y = refl
or_else-opposite gt y = refl

-- where the first comparison decides
or_else-Chain :
    (x y z x' y' z' : Ordering)
    → Chain x y z
    → Chain x' y' z'
    → Chain (or_else x x') (or_else y y') (or_else z z')
or_else-Chain eq eq z x' y' z' h k = rw h k
or_else-Chain eq lt z lt y' z' h k = ap (λ o. or_else o z') h
or_else-Chain eq lt z eq y' z' h k = ap (λ o. or_else o z') h
or_else-Chain eq lt z gt y' z' h k = tt
or_else-Chain eq gt z lt y' z' h k = tt
or_else-Chain eq gt z eq y' z' h k = ap (λ o. or_else o z') h
or_else-Chain eq gt z gt y' z' h k = ap (λ o. or_else o z') h
or_else-Chain lt lt z x' y' z' h k = ap (λ o. or_else o z') h
or_else-Chain lt eq z x' lt z' h k = ap (λ o. or_else o z') h
or_else-Chain lt eq z x' eq z' h k = ap (λ o. or_else o z') h
or_else-Chain lt eq z x' gt z' h k = tt
or_else-Chain lt gt z x' y' z' h k = tt
or_else-Chain gt lt z x' y' z' h k = tt
or_else-Chain gt eq z x' lt z' h k = tt
or_else-Chain gt eq z x' eq z' h k = ap (λ o. or_else o z') h
or_else-Chain gt eq z x' gt z' h k = ap (λ o. or_else o z') h
or_else-Chain gt gt z x' y' z' h k = ap (λ o. or_else o z') h

order_of-opposite : (a b : ℕ) → order_of a b ≡ opposite (order_of b a)
order_of-opposite a b = ground arith

order_of-Chain : (a b c : ℕ) → Chain (order_of a b) (order_of b c) (order_of a c)
order_of-Chain a b c = ground arith

-- a comparison by a first part and then by a rest
then-opposite :
    (x y x' y' : Ordering)
    → x ≡ opposite y
    → x' ≡ opposite y'
    → or_else x x' ≡ opposite (or_else y y')
then-opposite x y x' y' e f =
    ap (λ o. or_else o x') e ∙ ap (or_else (opposite y)) f ∙ sym (or_else-opposite y y')

compare_text-opposite : (s t : Bytes) → compare_text s t ≡ opposite (compare_text t s)
compare_text-opposite [] [] = refl
compare_text-opposite [] (d ∷ t) = refl
compare_text-opposite (c ∷ s) [] = refl
compare_text-opposite (c ∷ s) (d ∷ t) =
    then-opposite (order_of c d) (order_of d c) (compare_text s t) (compare_text t s)
      (order_of-opposite c d) (compare_text-opposite s t)

numeric-opposite :
    (xs ys : List ℕ) → compare_numeric_fields xs ys ≡ opposite (compare_numeric_fields ys xs)
numeric-opposite [] [] = refl
numeric-opposite [] (b ∷ ys) =
    then-opposite (order_of 0 b) (order_of b 0) (compare_numeric_fields [] ys)
      (compare_numeric_fields ys []) (order_of-opposite 0 b) (numeric-opposite [] ys)
numeric-opposite (a ∷ xs) [] =
    then-opposite (order_of a 0) (order_of 0 a) (compare_numeric_fields xs [])
      (compare_numeric_fields [] xs) (order_of-opposite a 0) (numeric-opposite xs [])
numeric-opposite (a ∷ xs) (b ∷ ys) =
    then-opposite (order_of a b) (order_of b a) (compare_numeric_fields xs ys)
      (compare_numeric_fields ys xs) (order_of-opposite a b) (numeric-opposite xs ys)

compare_pre-opposite : (s t : Bytes) → compare_pre s t ≡ opposite (compare_pre t s)
compare_pre-opposite [] [] = refl
compare_pre-opposite [] (d ∷ t) = refl
compare_pre-opposite (c ∷ s) [] = refl
compare_pre-opposite (c ∷ s) (d ∷ t) = compare_text-opposite (c ∷ s) (d ∷ t)

compare_text-Chain :
    (s t u : Bytes) → Chain (compare_text s t) (compare_text t u) (compare_text s u)
compare_text-Chain [] [] u = refl
compare_text-Chain [] (d ∷ t) [] = tt
compare_text-Chain [] (d ∷ t) (e ∷ u) = less (compare_text (d ∷ t) (e ∷ u))
  where
    less : (o : Ordering) → Chain lt o lt
    less lt = refl
    less eq = refl
    less gt = tt
compare_text-Chain (c ∷ s) [] [] = refl
compare_text-Chain (c ∷ s) [] (e ∷ u) = tt
compare_text-Chain (c ∷ s) (d ∷ t) [] = greater (compare_text (c ∷ s) (d ∷ t))
  where
    greater : (o : Ordering) → Chain o gt gt
    greater lt = tt
    greater eq = refl
    greater gt = refl
compare_text-Chain (c ∷ s) (d ∷ t) (e ∷ u) =
    or_else-Chain (order_of c d) (order_of d e) (order_of c e) (compare_text s t) (compare_text t u)
      (compare_text s u) (order_of-Chain c d e) (compare_text-Chain s t u)

compare_pre-Chain : (s t u : Bytes) → Chain (compare_pre s t) (compare_pre t u) (compare_pre s u)
compare_pre-Chain [] [] u = refl
compare_pre-Chain [] (d ∷ t) [] = tt
compare_pre-Chain [] (d ∷ t) (e ∷ u) = greater (compare_text (d ∷ t) (e ∷ u))
  where
    greater : (o : Ordering) → Chain gt o gt
    greater lt = tt
    greater eq = refl
    greater gt = refl
compare_pre-Chain (c ∷ s) [] [] = refl
compare_pre-Chain (c ∷ s) [] (e ∷ u) = tt
compare_pre-Chain (c ∷ s) (d ∷ t) [] = less (compare_text (c ∷ s) (d ∷ t))
  where
    less : (o : Ordering) → Chain o lt lt
    less lt = refl
    less eq = refl
    less gt = tt
compare_pre-Chain (c ∷ s) (d ∷ t) (e ∷ u) = compare_text-Chain (c ∷ s) (d ∷ t) (e ∷ u)

numeric-Chain :
    (xs ys zs : List ℕ)
    → Chain
        (compare_numeric_fields xs ys)
        (compare_numeric_fields ys zs)
        (compare_numeric_fields xs zs)
numeric-Chain [] [] zs = refl
numeric-Chain [] (b ∷ ys) [] =
    or_else-Chain (order_of 0 b) (order_of b 0) eq (compare_numeric_fields [] ys)
      (compare_numeric_fields ys []) eq (order_of-Chain 0 b 0) (numeric-Chain [] ys [])
numeric-Chain [] (b ∷ ys) (c ∷ zs) =
    or_else-Chain (order_of 0 b) (order_of b c) (order_of 0 c) (compare_numeric_fields [] ys)
      (compare_numeric_fields ys zs) (compare_numeric_fields [] zs) (order_of-Chain 0 b c)
      (numeric-Chain [] ys zs)
numeric-Chain (a ∷ xs) [] [] =
    or_else-Chain (order_of a 0) eq (order_of a 0) (compare_numeric_fields xs []) eq
      (compare_numeric_fields xs []) (order_of-Chain a 0 0) (numeric-Chain xs [] [])
numeric-Chain (a ∷ xs) [] (c ∷ zs) =
    or_else-Chain (order_of a 0) (order_of 0 c) (order_of a c) (compare_numeric_fields xs [])
      (compare_numeric_fields [] zs) (compare_numeric_fields xs zs) (order_of-Chain a 0 c)
      (numeric-Chain xs [] zs)
numeric-Chain (a ∷ xs) (b ∷ ys) [] =
    or_else-Chain (order_of a b) (order_of b 0) (order_of a 0) (compare_numeric_fields xs ys)
      (compare_numeric_fields ys []) (compare_numeric_fields xs []) (order_of-Chain a b 0)
      (numeric-Chain xs ys [])
numeric-Chain (a ∷ xs) (b ∷ ys) (c ∷ zs) =
    or_else-Chain (order_of a b) (order_of b c) (order_of a c) (compare_numeric_fields xs ys)
      (compare_numeric_fields ys zs) (compare_numeric_fields xs zs) (order_of-Chain a b c)
      (numeric-Chain xs ys zs)

-- Exchanging two versions turns the result round, and the results for a first and a second and for the
-- second and a third version agree with that for the first and the third, as those of an order do.
pub compare_versions-Chain :
    (a b c : Bytes)
    → (compare_versions a b ≡ opposite (compare_versions b a))
      × Chain (compare_versions a b) (compare_versions b c) (compare_versions a c)
unfolding compare_versions
compare_versions-Chain a b c =
    let x = split_version a in
    let y = split_version b in
    let z = split_version c in
    (
      then-opposite (compare_numeric_fields x.0 y.0) (compare_numeric_fields y.0 x.0)
          (compare_pre x.1 y.1) (compare_pre y.1 x.1) (numeric-opposite x.0 y.0)
          (compare_pre-opposite x.1 y.1),
      or_else-Chain (compare_numeric_fields x.0 y.0) (compare_numeric_fields y.0 z.0)
          (compare_numeric_fields x.0 z.0) (compare_pre x.1 y.1) (compare_pre y.1 z.1)
          (compare_pre x.1 z.1) (numeric-Chain x.0 y.0 z.0) (compare_pre-Chain x.1 y.1 z.1),
    )
