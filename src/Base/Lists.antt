-- ===== src/Base/Lists.antt =====
-- Lists measured by native numbers, Boolean filters, and predicates on every member.
use Prim.Native.Nat.{ℕ, zero, suc, ◌+◌, ◌-◌, ◌≤◌, min}
use mathlib.Core.Path.{◌≡◌, refl, ap, ◌∙◌}
use mathlib.Core.Logic.{inl, inr}
use mathlib.Core.Bool.{Bool, true, false}
use mathlib.Core.List.{List, [], ◌∷◌, ◌++◌, map}
use mathlib.Core.Option.{Option, none, some}
use native.Mathlib.Omega.{arith}
use curio_core.Base.Tests.{if◌then◌else◌, Bool-cases}

module _ {ℓ} {A : Type ℓ} where
  abbrev pub length : List A → ℕ
  length [] = 0
  length (x ∷ xs) = suc (length xs)

  abbrev pub take : ℕ → List A → List A
  take zero xs = []
  take (suc n) [] = []
  take (suc n) (x ∷ xs) = x ∷ take n xs

  abbrev pub drop : ℕ → List A → List A
  drop zero xs = xs
  drop (suc n) [] = []
  drop (suc n) (x ∷ xs) = drop n xs

  abbrev pub replicate : ℕ → A → List A
  replicate zero a = []
  replicate (suc n) a = a ∷ replicate n a

  -- the members that pass a test, in their order
  abbrev pub keep : (A → Bool) → List A → List A
  keep p [] = []
  keep p (x ∷ xs) = let rest = keep p xs in if p x then x ∷ rest else rest

  abbrev pub find : (A → Bool) → List A → Option A
  find p [] = none
  find p (x ∷ xs) = let rest = find p xs in if p x then some x else rest

  abbrev pub any : (A → Bool) → List A → Bool
  any p [] = false
  any p (x ∷ xs) = let rest = any p xs in if p x then true else rest

  abbrev pub count_if : (A → Bool) → List A → ℕ
  count_if p [] = 0
  count_if p (x ∷ xs) = let rest = count_if p xs in if p x then suc rest else rest

  pub length-append : (xs ys : List A) → length (xs ++ ys) ≡ length xs + length ys
  length-append [] ys = omega arith
  length-append (x ∷ xs) ys = omega (arith, length-append xs ys)

  pub length-take : (n : ℕ) (xs : List A) → length (take n xs) ≡ min n (length xs)
  length-take zero xs = omega arith
  length-take (suc n) [] = omega arith
  length-take (suc n) (x ∷ xs) = omega (arith, length-take n xs)

  pub length-keep-le : (p : A → Bool) (xs : List A) → length (keep p xs) ≤ length xs
  length-keep-le p [] = omega arith
  length-keep-le p (x ∷ xs) = ground (arith, length-keep-le p xs)

module _ {ℓ κ} {A : Type ℓ} where
  abbrev pub All : (A → Type κ) → List A → Type κ
  All P [] = Unit
  All P (x ∷ xs) = P x × All P xs

module _ {ℓ} {A : Type ℓ} where
  -- membership as data, at the place that the proof counts
  pub data Member (a : A) : List A → Type ℓ where
    head : {xs : List A} → Member a (a ∷ xs)
    tail : {x : A} {xs : List A} → Member a xs → Member a (x ∷ xs)

  pub Member-append_left : {x : A} {xs : List A} (ys : List A) → Member x xs → Member x (xs ++ ys)
  Member-append_left ys head = head
  Member-append_left ys (tail m) = tail (Member-append_left ys m)

  pub Member-append_right : {x : A} (xs : List A) {ys : List A} → Member x ys → Member x (xs ++ ys)
  Member-append_right [] m = m
  Member-append_right (y ∷ xs) m = tail (Member-append_right xs m)

module _ {ℓ κ} {A : Type ℓ} (P : A → Type κ) where
  pub All-Member : {x : A} {xs : List A} → Member x xs → All P xs → P x
  All-Member head h = h.0
  All-Member (tail m) h = All-Member m h.1

  pub All-of_forall : (xs : List A) → ((x : A) → P x) → All P xs
  All-of_forall [] f = tt
  All-of_forall (x ∷ xs) f = (f x, All-of_forall xs f)

  pub All-take : (n : ℕ) (xs : List A) → All P xs → All P (take n xs)
  All-take zero xs h = tt
  All-take (suc n) [] h = tt
  All-take (suc n) (x ∷ xs) h = (h.0, All-take n xs h.1)

  pub All-append : (xs ys : List A) → All P xs → All P ys → All P (xs ++ ys)
  All-append [] ys _ hy = hy
  All-append (x ∷ xs) ys hx hy = (hx.0, All-append xs ys hx.1 hy)

  pub All-keep :
      (p : A → Bool) (xs : List A) → ((x : A) → Member x xs → p x ≡ true → P x) → All P (keep p xs)
  All-keep p [] f = tt
  All-keep p (x ∷ xs) f =
      let rest = All-keep p xs (λ y m. f y (tail m)) in
      elim (Bool-cases (p x)) [ inl e ↦ rw e (f x head e, rest) | inr e ↦ rw e rest ]

module _ {ℓ κ} {A B : Type ℓ} (P : B → Type κ) (f : A → B) where
  pub All-map : (xs : List A) → All (λ x. P (f x)) xs → All P (map f xs)
  All-map [] h = tt
  All-map (x ∷ xs) h = (h.0, All-map xs h.1)

module _ {ℓ κ τ} {A : Type ℓ} (P : A → Type κ) (Q : A → Type τ) where
  pub All-weaken : (xs : List A) → ((x : A) → P x → Q x) → All P xs → All Q xs
  All-weaken [] f h = tt
  All-weaken (x ∷ xs) f h = (f x h.0, All-weaken xs f h.1)

module _ {ℓ} {A : Type ℓ} where
  pub All-self : (xs : List A) → All (λ x. Member x xs) xs
  All-self [] = tt
  All-self (x ∷ xs) = (
    head,
    All-weaken (λ y. Member y xs) (λ y. Member y (x ∷ xs)) xs (λ y m. tail m) (All-self xs),
  )

module _ {ℓ} {A : Type ℓ} (p : A → Bool) where
  pub any_Member : (xs : List A) → any p xs ≡ true → (x : A) × Member x xs × (p x ≡ true)
  any_Member [] h = absurd (ground (arith, h))
  any_Member (x ∷ xs) h = elim (Bool-cases (p x)) [
    | inl e ↦ (x, head, e)
    | inr e ↦ let (y, m, k) = any_Member xs (ground (arith, e, h)) in (y, tail m, k)
  ]

  pub any-All : (xs : List A) → any p xs ≡ false → All (λ x. p x ≡ false) xs
  any-All [] h = tt
  any-All (x ∷ xs) h = elim (Bool-cases (p x)) [
    | inl e ↦ absurd (ground (arith, e, h))
    | inr e ↦ (e, any-All xs (ground (arith, e, h)))
  ]

module _ {ℓ} {A B : Type ℓ} (f : A → B) where
  pub Member-map : {x : A} {xs : List A} → Member x xs → Member (f x) (map f xs)
  Member-map head = head
  Member-map (tail m) = tail (Member-map m)

module _ {ℓ} {A : Type ℓ} where
  pub take_all : (n : ℕ) (xs : List A) → length xs ≤ n → take n xs ≡ xs
  take_all zero [] h = refl
  take_all zero (x ∷ xs) h = absurd (omega arith)
  take_all (suc n) [] h = refl
  take_all (suc n) (x ∷ xs) h = ap (λ ys. x ∷ ys) (take_all n xs (omega arith))

  pub take-append :
      (n : ℕ) (xs ys : List A) → take n (xs ++ ys) ≡ take n xs ++ take (n - length xs) ys
  take-append zero [] ys = refl
  take-append zero (x ∷ xs) ys =
      let none_left : 0 - suc (length xs) ≡ 0 = omega arith in rw none_left refl
  take-append (suc n) [] ys = let all_left : suc n - 0 ≡ suc n = omega arith in rw all_left refl
  take-append (suc n) (x ∷ xs) ys =
      ap (λ zs. x ∷ zs) (take-append n xs ys)
      ∙ ap (λ k. (x ∷ take n xs) ++ take k ys) (suc_sub n (length xs))
    where
      suc_sub : (a b : ℕ) → a - b ≡ suc a - suc b
      suc_sub a b = omega arith
