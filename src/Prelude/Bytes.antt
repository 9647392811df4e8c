-- ===== src/Prelude/Bytes.antt =====
-- Texts as lists of bytes, with the operations of `str` that the program calls.
pub mod Digits
use Prim.Native.Nat.{ℕ, zero, suc, ◌+◌, ◌*◌, ◌-◌, ◌/◌, ◌%◌}
use Prim.Native.Char.{code}
use Prim.Native.String.{String}
use mathlib.Core.Path.{◌≡◌}
use mathlib.Core.Logic.{◌↔◌}
use mathlib.Core.Bool.{Bool, true, false, ◌&&◌}
use mathlib.Core.Option.{Option, none, some}
use mathlib.Core.List.{List, [], ◌∷◌}
use native.Mathlib.Omega.{arith}
use tesser.Prelude.Tests.{ltb, leb, ◌==◌, if◌then◌else◌}
use tesser.Prelude.Key.{Key}

-- The code points of a literal, which are its bytes if it is ASCII.
abbrev pub codes : String → List ℕ
codes String.[] = []
codes (String.◌∷◌ c s) = code c ∷ codes s

-- `==`
abbrev pub same_text : List ℕ → List ℕ → Bool
same_text [] [] = true
same_text [] (b ∷ t) = false
same_text (a ∷ s) [] = false
same_text (a ∷ s) (b ∷ t) = (a == b) && same_text s t

pub same_text_iff : (s t : List ℕ) → (same_text s t ≡ true) ↔ (s ≡ t)
same_text_iff [] [] = ground arith
same_text_iff [] (b ∷ t) = ground arith
same_text_iff (a ∷ s) [] = ground arith
same_text_iff (a ∷ s) (b ∷ t) = ground (arith, same_text_iff s t)

instance abbrev pub text_key : Key (List ℕ)
text_key = record { same = same_text; same_iff = same_text_iff }

-- `strip_prefix`
abbrev pub strip_prefix : List ℕ → List ℕ → Option (List ℕ)
strip_prefix [] s = some s
strip_prefix (a ∷ p) [] = none
strip_prefix (a ∷ p) (b ∷ s) = if a == b then strip_prefix p s else none

-- a byte in front of the part before the separator
abbrev behind : ℕ → Option (List ℕ × List ℕ) → Option (List ℕ × List ℕ)
behind a none = none
behind a (some (before, after)) = some (a ∷ before, after)

-- `split_once`, at the first place where the pattern, which is not empty, begins
abbrev pub split_once : List ℕ → List ℕ → Option (List ℕ × List ℕ)
split_once p [] = none
split_once p (a ∷ s) = elim (strip_prefix p (a ∷ s)) [
  | some after ↦ some ([], after)
  | none ↦ behind a (split_once p s)
]

-- `rsplit_once`, at the last place where the byte stands
abbrev pub rsplit_once : ℕ → List ℕ → Option (List ℕ × List ℕ)
rsplit_once c [] = none
rsplit_once c (a ∷ s) = elim (rsplit_once c s) [
  | some (before, after) ↦ some (a ∷ before, after)
  | none ↦ if a == c then some ([], s) else none
]

-- `strip_suffix`, of a suffix that is not empty
abbrev pub strip_suffix : List ℕ → List ℕ → Option (List ℕ)
strip_suffix p [] = none
strip_suffix p (a ∷ s) =
    let later = strip_suffix p s in
    if same_text (a ∷ s) p
    then some []
    else elim later [ none ↦ none | some before ↦ some (a ∷ before) ]

-- `to_string` of a `u32`, which has ten digits at most
abbrev digits_from : ℕ → ℕ → List ℕ → List ℕ
digits_from zero n acc = acc
digits_from (suc rounds) n acc =
    let rest = digits_from rounds (n / 10) ((b'0' + n % 10) ∷ acc) in
    if ltb n 10 then (b'0' + n) ∷ acc else rest

abbrev pub show_u32 : ℕ → List ℕ
show_u32 n = digits_from 10 n []

-- `parse::<u32>()`: a plus sign may stand before the digits; what does not fit is an error.
abbrev parse_digits : ℕ → List ℕ → Option ℕ
parse_digits acc [] = some acc
parse_digits acc (c ∷ s) =
    let next = acc * 10 + (c - b'0') in
    let rest = parse_digits next s in
    if leb b'0' c && leb c b'9' && ltb next 4294967296 then rest else none

abbrev parse_unsigned : List ℕ → Option ℕ
parse_unsigned [] = none
parse_unsigned (c ∷ s) = parse_digits 0 (c ∷ s)

abbrev pub parse_u32 : List ℕ → Option ℕ
parse_u32 [] = none
parse_u32 (c ∷ s) = if c == b'+' then parse_unsigned s else parse_unsigned (c ∷ s)
