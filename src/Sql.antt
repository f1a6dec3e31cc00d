-- ===== src/Sql.antt =====
-- The SQL that the program's statements use, on tables as lists of rows. `keep` is `SELECT … WHERE`.
pub mod Order
pub mod Descending
pub mod Changes
pub mod Drops
use curio_core.Base.{
  Option, suc, zero, ap, sym, inr, inl, some, none, ℕ, Bool, true, false, not, List, [], ◌∷◌, ◌++◌,
  map, if◌then◌else◌, ltb, Bytes, has_prefix, codes, leb, ◌+◌, ◌&&◌, ◌≡◌, refl, arith, length, All,
}

module _ {ℓ} {A : Type ℓ} where
  -- `UPDATE … SET … WHERE`
  abbrev pub update : (A → Bool) → (A → A) → List A → List A
  update p f [] = []
  update p f (x ∷ xs) = (if p x then f x else x) ∷ update p f xs

  -- `DELETE … WHERE`
  abbrev pub delete : (A → Bool) → List A → List A
  delete p [] = []
  delete p (x ∷ xs) = let rest = delete p xs in if p x then rest else x ∷ rest

  abbrev pub insert_by : (A → ℕ) → A → List A → List A
  insert_by key x [] = x ∷ []
  insert_by key x (y ∷ ys) =
      let rest = insert_by key x ys in if ltb (key y) (key x) then y ∷ rest else x ∷ y ∷ ys

  -- `ORDER BY key ASC`; rows of one key keep their order
  abbrev pub order_by : (A → ℕ) → List A → List A
  order_by key [] = []
  order_by key (x ∷ xs) = insert_by key x (order_by key xs)

  abbrev pub insert_desc : (A → ℕ) → A → List A → List A
  insert_desc key x [] = x ∷ []
  insert_desc key x (y ∷ ys) =
      let rest = insert_desc key x ys in if ltb (key x) (key y) then y ∷ rest else x ∷ y ∷ ys

  -- `ORDER BY key DESC`
  abbrev pub order_by_desc : (A → ℕ) → List A → List A
  order_by_desc key [] = []
  order_by_desc key (x ∷ xs) = insert_desc key x (order_by_desc key xs)

  pub length-update : (p : A → Bool) (f : A → A) (xs : List A) → length (update p f xs) ≡ length xs
  length-update p f [] = refl
  length-update p f (x ∷ xs) = omega (arith, length-update p f xs)

-- `lower()`, and `LIKE` of a prefix, which takes no account of the case of letters
abbrev pub lower_byte : ℕ → ℕ
lower_byte c = if leb b'A' c && leb c b'Z' then c + 32 else c

unfoldable pub lower : Bytes → Bytes
lower = map lower_byte

unfoldable pub like_prefix : Bytes → Bytes → Bool
unfolding lower
like_prefix pattern s = has_prefix (lower s) (lower pattern)
