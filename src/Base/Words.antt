-- ===== src/Base/Words.antt =====
-- package strings, on bytes: Fields, TrimSpace, TrimLeft, TrimRight, Split, ContainsAny.
use Prim.Native.Nat.{ℕ, ◌+◌}
use mathlib.Core.Bool.{Bool, ◌&&◌, ◌||◌}
use mathlib.Core.List.{List, [], ◌∷◌, ◌++◌}
use mathlib.Core.Option.{Option, none, some}
use curio_core.Base.Tests.{leb, ◌==◌, if◌then◌else◌}
use curio_core.Base.Lists.{any}
use curio_core.Base.Text.{Bytes}

-- the white space of ASCII
abbrev pub is_space : ℕ → Bool
is_space c = c == b' ' || (leb 9 c && leb c 13)

abbrev pub trim_left : (ℕ → Bool) → Bytes → Bytes
trim_left p [] = []
trim_left p (c ∷ s) = let rest = trim_left p s in if p c then rest else c ∷ s

-- a byte in front of what is left of the rest, which is nothing if the byte goes too
abbrev pub keep_byte : (ℕ → Bool) → ℕ → Bytes → Bytes
keep_byte p c [] = if p c then [] else c ∷ []
keep_byte p c (d ∷ s) = c ∷ d ∷ s

abbrev pub trim_right : (ℕ → Bool) → Bytes → Bytes
trim_right p [] = []
trim_right p (c ∷ s) = keep_byte p c (trim_right p s)

abbrev pub trim_space : Bytes → Bytes
trim_space s = trim_right is_space (trim_left is_space s)

abbrev pub put_word : Bytes → List Bytes → List Bytes
put_word [] ws = ws
put_word (c ∷ w) ws = (c ∷ w) ∷ ws

abbrev pub split_words : Bytes → Bytes → List Bytes
split_words word [] = put_word word []
split_words word (c ∷ s) =
    let next_word = put_word word (split_words [] s) in
    let same_word = split_words (word ++ (c ∷ [])) s in if is_space c then next_word else same_word

-- strings.Fields
abbrev pub fields : Bytes → List Bytes
fields = split_words []

-- strings.ContainsAny
abbrev pub contains_any : Bytes → Bytes → Bool
contains_any chars s = any (λ c. any (λ d. c == d) chars) s

abbrev pub first_piece : ℕ → List Bytes → List Bytes
first_piece c [] = (c ∷ []) ∷ []
first_piece c (piece ∷ pieces) = (c ∷ piece) ∷ pieces

-- strings.Split by one byte
abbrev pub split_on : ℕ → Bytes → List Bytes
split_on sep [] = [] ∷ []
split_on sep (c ∷ s) =
    let pieces = split_on sep s in if c == sep then [] ∷ pieces else first_piece c pieces

-- what is in front of the first byte that passes a test, and what is behind it, if there is one
abbrev pub cut : (ℕ → Bool) → Bytes → Bytes × Option Bytes
cut p [] = ([], none)
cut p (c ∷ s) =
    let rest : Bytes × Option Bytes = (c ∷ (cut p s).0, (cut p s).1) in
    if p c then ([], some s) else rest

-- strings.ToLower, on ASCII
abbrev pub lower_letter : ℕ → ℕ
lower_letter c = if leb b'A' c && leb c b'Z' then c + 32 else c
