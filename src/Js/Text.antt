-- ===== src/Js/Text.antt =====
-- Strings as lists of UTF-16 code units: `split`, `trim`, `includes`, `===` and `parseInt(s, 10)`.
pub mod Order
use Prim.Native.Char.{code}
use Prim.Native.String.{String}
use mathlib.Core.List.{reverse}
use agent_phonon.Base.{
  ℕ, zero, suc, ◌+◌, ◌-◌, ◌*◌, ◌^◌, Bool, true, false, ◌&&◌, ◌||◌, List, [], ◌∷◌, Option, none,
  some, ltb, leb, ◌==◌, if◌then◌else◌, any,
}

-- A text literal as its code units (its characters stand in the basic plane).
abbrev pub codes : String → List ℕ
codes String.[] = []
codes (String.◌∷◌ c s) = code c ∷ codes s

unfoldable pub text_eq : List ℕ → List ℕ → Bool
text_eq [] [] = true
text_eq [] (y ∷ ys) = false
text_eq (x ∷ xs) [] = false
text_eq (x ∷ xs) (y ∷ ys) = x == y && text_eq xs ys

-- `a < b` on strings compares code units from the left.
unfoldable pub text_lt : List ℕ → List ℕ → Bool
text_lt [] [] = false
text_lt [] (y ∷ ys) = true
text_lt (x ∷ xs) [] = false
text_lt (x ∷ xs) (y ∷ ys) = ltb x y || (x == y && text_lt xs ys)

unfoldable pub includes : List ℕ → ℕ → Bool
includes s c = any (λ x. x == c) s

-- Put a code unit in front of the first piece.
abbrev pub push_head : ℕ → List (List ℕ) → List (List ℕ)
push_head c [] = (c ∷ []) ∷ []
push_head c (piece ∷ pieces) = (c ∷ piece) ∷ pieces

-- `s.split(sep)` at a separator of one code unit.
unfoldable pub split : List ℕ → ℕ → List (List ℕ)
split [] sep = [] ∷ []
split (c ∷ s) sep = let pieces = split s sep in if c == sep then [] ∷ pieces else push_head c pieces

-- `\s`, which is also what `trim` removes and `parseInt` skips.
unfoldable pub is_space : ℕ → Bool
is_space c =
    (leb 9 c && leb c 13)
    || (c == 32)
    || (c == 0xa0)
    || (c == 0x1680)
    || (leb 0x2000 c && leb c 0x200a)
    || (c == 0x2028)
    || (c == 0x2029)
    || (c == 0x202f)
    || (c == 0x205f)
    || (c == 0x3000)
    || (c == 0xfeff)

unfoldable pub trim_start : List ℕ → List ℕ
unfolding is_space
trim_start [] = []
trim_start (c ∷ s) = let rest = trim_start s in if is_space c then rest else c ∷ s

unfoldable pub trim : List ℕ → List ℕ
unfolding trim_start
trim s = reverse (trim_start (reverse (trim_start s)))

-- `s.split(/\s+/)`; the flag says that the code unit before was white space.
unfoldable pub split_spaces : Bool → List ℕ → List (List ℕ)
unfolding is_space
split_spaces in_space [] = [] ∷ []
split_spaces in_space (c ∷ s) =
    let pieces = split_spaces (is_space c) s in
    if is_space c then (if in_space then pieces else [] ∷ pieces) else push_head c pieces

-- An integral number of JavaScript; `negsuc n` is -(n + 1), and -0 is taken for 0.
pub data ℤ : Type 0 where
  pos : ℕ → ℤ
  negsuc : ℕ → ℤ

abbrev pub neg : ℕ → ℤ
neg zero = pos 0
neg (suc n) = negsuc n

unfoldable pub is_digit : ℕ → Bool
is_digit c = leb b'0' c && leb c b'9'

-- The value of the longest prefix of digits, behind the digits read so far.
unfoldable pub digits_value : ℕ → List ℕ → ℕ
unfolding is_digit
digits_value acc [] = acc
digits_value acc (c ∷ s) =
    let rest = digits_value (10 * acc + (c - b'0')) s in if is_digit c then rest else acc

-- The digits of `parseInt`: `none` is NaN.
unfoldable pub parse_digits : List ℕ → Option ℕ
unfolding is_digit digits_value
parse_digits [] = none
parse_digits (c ∷ s) = if is_digit c then some (digits_value 0 (c ∷ s)) else none

abbrev pub signed : Bool → Option ℕ → Option ℤ
signed negative none = none
signed false (some n) = some (pos n)
signed true (some n) = some (neg n)

unfoldable pub parse_signed : List ℕ → Option ℤ
unfolding parse_digits
parse_signed [] = none
parse_signed (c ∷ s) =
    if c == b'-'
    then signed true (parse_digits s)
    else if c == b'+'
    then signed false (parse_digits s)
    else signed false (parse_digits (c ∷ s))

-- `parseInt(s, 10)`.
unfoldable pub parse_int : List ℕ → Option ℤ
unfolding trim_start parse_signed
parse_int s = parse_signed (trim_start s)

-- An integer of this size or more rounds to Infinity.
abbrev pub float_overflow : ℕ
float_overflow = 2 ^ 1024 - 2 ^ 970

-- `Number.isFinite`, with NaN as `none`.
unfoldable pub is_finite : Option ℤ → Bool
is_finite none = false
is_finite (some (pos n)) = ltb n float_overflow
is_finite (some (negsuc n)) = ltb (n + 1) float_overflow
