-- ===== src/Prelude/Bytes/Digits.antt =====
-- Numbers printed and read back, and texts split where they were joined.
use Prim.Native.Nat.{ℕ, zero, suc, ◌+◌, ◌/◌, ◌%◌, ◌^◌, ◌≤◌, ◌<◌}
use mathlib.Core.Path.{◌≡◌, refl, ap, ◌∙◌}
use mathlib.Core.Logic.{◌≢◌}
use mathlib.Core.Option.{none, some}
use mathlib.Core.List.{List, [], ◌∷◌, ◌++◌}
use native.Mathlib.Omega.{arith}
use tesser.Prelude.Lists.{All}
use tesser.Prelude.Bytes.{strip_prefix, rsplit_once, digits_from, show_u32, parse_digits, parse_u32}

pub strip_prefix-append : (p t : List ℕ) → strip_prefix p (p ++ t) ≡ some t
strip_prefix-append [] t = refl
strip_prefix-append (a ∷ p) t = ground (arith, strip_prefix-append p t)

pub rsplit_once-append :
    (c : ℕ) (s t : List ℕ) → rsplit_once c t ≡ none → rsplit_once c (s ++ (c ∷ t)) ≡ some (s, t)
rsplit_once-append c [] t n = ground (arith, n)
rsplit_once-append c (a ∷ s) t n = ground (arith, rsplit_once-append c s t n)

abbrev IsDigit : ℕ → Type 0
IsDigit c = (b'0' ≤ c) × (c ≤ b'9')

digits_from-IsDigit : (r n : ℕ) (acc : List ℕ) → All IsDigit acc → All IsDigit (digits_from r n acc)
digits_from-IsDigit zero n acc a = a
digits_from-IsDigit (suc r) n acc a =
    ground (
      arith,
      digits_from-IsDigit r (n / 10) ((b'0' + n % 10) ∷ acc) ((omega arith, omega arith), a),
    )

-- Read from zero, the digits of a number come to that number.
parse_digits-digits_from :
    (r n : ℕ) (acc : List ℕ)
    → n < 10 ^ r
    → n < 4294967296
    → parse_digits 0 (digits_from r n acc) ≡ parse_digits n acc
parse_digits-digits_from zero n acc h b =
    let e : 0 ≡ n = omega arith in ap (λ k. parse_digits k acc) e
parse_digits-digits_from (suc r) n acc h b =
    ground (
      arith,
      parse_digits-digits_from r (n / 10) ((b'0' + n % 10) ∷ acc) (omega arith) (omega arith),
    )

digits_from-starts : (r n : ℕ) (acc : List ℕ) → All IsDigit acc → ((digits_from (suc r) n acc) ≢ [])
digits_from-starts zero n acc a = ground arith
digits_from-starts (suc r) n acc a =
    ground
      (arith, digits_from-starts r (n / 10) ((b'0' + n % 10) ∷ acc) ((omega arith, omega arith), a))

parse_u32-digits : (t : List ℕ) → All IsDigit t → t ≢ [] → parse_u32 t ≡ parse_digits 0 t
parse_u32-digits [] a h = absurd (h refl)
parse_u32-digits (c ∷ t) a h = ground arith

-- A number of 32 bits is read back as it was printed.
pub parse_u32-show_u32 : (n : ℕ) → n < 4294967296 → parse_u32 (show_u32 n) ≡ some n
parse_u32-show_u32 n h =
    let digits = digits_from-IsDigit 10 n [] tt in
    let read : parse_u32 (show_u32 n) ≡ parse_digits 0 (show_u32 n) =
      parse_u32-digits (digits_from 10 n []) digits (digits_from-starts 9 n [] tt) in
    let value : parse_digits 0 (show_u32 n) ≡ some n =
      parse_digits-digits_from 10 n [] (omega arith) h in
    read ∙ value

rsplit_once-digits : (t : List ℕ) → All IsDigit t → rsplit_once b'-' t ≡ none
rsplit_once-digits [] a = refl
rsplit_once-digits (c ∷ t) a = ground (arith, rsplit_once-digits t)

pub rsplit_once-show_u32 : (n : ℕ) → rsplit_once b'-' (show_u32 n) ≡ none
rsplit_once-show_u32 n = rsplit_once-digits (digits_from 10 n []) (digits_from-IsDigit 10 n [] tt)
