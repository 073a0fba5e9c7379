-- ===== src/Prelude/Text/Decimal.antt =====
-- Decimal numbers: `{}` of an `i32`, and `str::parse::<i32>`.
use Prim.Native.Nat.{ℕ, zero, suc, ◌+◌, ◌-◌, ◌*◌, ◌/◌, ◌%◌, ◌^◌, ◌<◌, ◌≤◌}
use mathlib.Core.Path.{◌≡◌, refl, ap, ◌∙◌}
use mathlib.Core.Bool.{◌&&◌}
use mathlib.Core.Option.{Option, none, some}
use mathlib.Core.List.{List, [], ◌∷◌}
use mathlib.Core.Logic.{inl, inr}
use native.Mathlib.Omega.{arith}
use native.Mathlib.Nat.{pow-suc}
use native.Mathlib.Numerals.{add-one}
use neo_easy_tier_deamon.Prelude.Tests.{ltb, leb, ◌==◌, if◌then◌else◌, Bool-cases}
use neo_easy_tier_deamon.Prelude.Int.{ℤ, pos, negsuc, neg_ℕ, IsI32}

-- The digits of `n` before `rest`; a number below 10 ^ fuel has enough fuel.
unfoldable pub digits : ℕ → ℕ → List ℕ → List ℕ
digits zero n rest = rest
digits (suc fuel) n rest =
    let more = digits fuel (n / 10) ((b'0' + n % 10) ∷ rest) in
    if ltb n 10 then (b'0' + n) ∷ rest else more

unfoldable pub format_i32 : ℤ → List ℕ
format_i32 (pos n) = digits 10 n []
format_i32 (negsuc n) = b'-' ∷ digits 10 (n + 1) []

-- The digits of `s` after `acc`; an error at any other byte, or where the value passes `bound`.
unfoldable pub parse_digits : ℕ → ℕ → List ℕ → Option ℕ
parse_digits bound acc [] = some acc
parse_digits bound acc (c ∷ s) =
    let acc' = acc * 10 + (c - b'0') in
    let more = parse_digits bound acc' s in
    if leb b'0' c && leb c b'9' && leb acc' bound then more else none

abbrev map_int : (ℕ → ℤ) → Option ℕ → Option ℤ
map_int f none = none
map_int f (some n) = some (f n)

abbrev parse_negative : List ℕ → Option ℤ
parse_negative [] = none
parse_negative (c ∷ s) = map_int neg_ℕ (parse_digits (2 ^ 31) 0 (c ∷ s))

abbrev parse_positive : List ℕ → Option ℤ
parse_positive [] = none
parse_positive (c ∷ s) = map_int pos (parse_digits (2 ^ 31 - 1) 0 (c ∷ s))

unfoldable pub parse_i32 : List ℕ → Option ℤ
parse_i32 [] = none
parse_i32 (c ∷ s) =
    if c == b'-'
    then parse_negative s
    else if c == b'+'
    then parse_positive s
    else parse_positive (c ∷ s)

pub digits-head :
    (fuel n : ℕ) (rest : List ℕ)
    → (c : ℕ) × (s : List ℕ) × (digits (suc fuel) n rest ≡ c ∷ s) × (b'0' ≤ c) × (c ≤ b'9')
unfolding digits
digits-head zero n rest = elim (Bool-cases (ltb n 10)) [
  | inl e ↦ (b'0' + n, rest, rw e, omega arith, ground arith)
  | inr e ↦ (b'0' + n % 10, rest, rw e, omega arith, omega arith)
]
digits-head (suc fuel) n rest = elim (Bool-cases (ltb n 10)) [
  | inl e ↦ (b'0' + n, rest, rw e, omega arith, ground arith)
  | inr e ↦ rw e (digits-head fuel (n / 10) ((b'0' + n % 10) ∷ rest))
]

parse_digits-step :
    (bound acc d : ℕ) (rest : List ℕ)
    → d < 10
    → acc * 10 + d ≤ bound
    → parse_digits bound acc ((b'0' + d) ∷ rest) ≡ parse_digits bound (acc * 10 + d) rest
unfolding parse_digits
parse_digits-step bound acc d rest h b =
    let e : acc * 10 + (b'0' + d - b'0') ≡ acc * 10 + d = omega arith in rw e (ground arith)

pub parse_digits-digits :
    (bound fuel n : ℕ) (rest : List ℕ)
    → n < 10 ^ fuel
    → n ≤ bound
    → parse_digits bound 0 (digits fuel n rest) ≡ parse_digits bound n rest
unfolding digits
parse_digits-digits bound zero n rest h b = ap (λ k. parse_digits bound k rest) (omega arith)
parse_digits-digits bound (suc fuel) n rest h b = elim (Bool-cases (ltb n 10)) [
  | inl e ↦ rw e (
      parse_digits-step bound 0 n rest (ground arith) (omega arith)
      ∙ ap (λ k. parse_digits bound k rest) (omega arith))
  | inr e ↦ rw e (
      rw
        (parse_digits-digits bound fuel (n / 10) ((b'0' + n % 10) ∷ rest)
          (omega (arith, pow-suc 10 fuel)) (omega arith))
        (rw (parse_digits-step bound (n / 10) (n % 10) rest (omega arith) (omega arith))
          (ap (λ k. parse_digits bound k rest) (omega arith))))
]

parse_digits-all :
    (bound n : ℕ) → n < 10 ^ 10 → n ≤ bound → parse_digits bound 0 (digits 10 n []) ≡ some n
unfolding parse_digits
parse_digits-all bound n h b = parse_digits-digits bound 10 n [] h b

-- A text that begins with a digit has no sign.
parse_i32-digit :
    (l : List ℕ) (c : ℕ) (s : List ℕ)
    → l ≡ c ∷ s
    → b'0' ≤ c
    → (parse_i32 l ≡ map_int pos (parse_digits (2 ^ 31 - 1) 0 l))
      × (parse_negative l ≡ map_int neg_ℕ (parse_digits (2 ^ 31) 0 l))
unfolding parse_i32
parse_i32-digit l c s e h = rw e (ground arith, refl)

-- What is printed is read back, for every value of `i32`.
pub parse_i32-format_i32 : (z : ℤ) → IsI32 z → parse_i32 (format_i32 z) ≡ some z
unfolding parse_i32 format_i32
parse_i32-format_i32 (pos n) h =
    let (c, s, e, lo, hi) = digits-head 9 n [] in
    rw ((parse_i32-digit (digits 10 n []) c s e lo).0)
      (rw (parse_digits-all (2 ^ 31 - 1) n (omega arith) (omega arith)))
parse_i32-format_i32 (negsuc n) h =
    let (c, s, e, lo, hi) = digits-head 9 (n + 1) [] in
    rw ((parse_i32-digit (digits 10 (n + 1) []) c s e lo).1) (
      rw (parse_digits-all (2 ^ 31) (n + 1) (omega arith) (omega arith))
        (ap (λ k. some (neg_ℕ k)) (add-one n)))
