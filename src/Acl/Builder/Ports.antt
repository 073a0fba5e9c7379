-- ===== src/Acl/Builder/Ports.antt =====
-- The ports of a whitelist, and how the rules read them
-- (easytier/src/common/acl_processor.rs).
use neo_easy_tier_deamon.Prelude.{
  ℕ, zero, suc, ◌+◌, ◌-◌, ◌*◌, ◌/◌, ◌%◌, ◌^◌, ◌≤◌, ◌<◌, ◌≡◌, ◌∙◌, sym, ap, refl, leb, Bool, true,
  false, ◌&&◌, ◌||◌, Option, none, some, List, [], ◌∷◌, ◌==◌, arith, inl, inr, Bool-cases,
  Option-cases, if_true, if_false,
}
use neo_easy_tier_deamon.Prelude.Text.{Text, split_once}
use neo_easy_tier_deamon.Prelude.Text.Decimal.{
  digits, parse_digits, digits-head, parse_digits-digits,
}
use neo_easy_tier_deamon.Acl.{CidrLib}
use neo_easy_tier_deamon.Acl.Rules.{
  parse_u16, parse_u16_digits, both, parse_port_range, filter_map, any_of, push, port_matches,
  unless_empty,
}
use neo_easy_tier_deamon.Acl.Builder.{
  port_text, if_ordered, parse_port_spec, cons_option, parse_port_list,
}

-- The range that a text denotes, with no white space.
abbrev pub port_range_of : Text → Option (ℕ × ℕ)
port_range_of s = elim (split_once b'-' s) [
  | none ↦ both (parse_u16 s) (parse_u16 s)
  | some (start, end) ↦ both (parse_u16 start) (parse_u16 end)
]

-- What is used of `str::trim`: a number has no white space around it.
abbrev pub TrimKeeps : {V4 V6 : Type 0} → CidrLib V4 V6 → Type 0
TrimKeeps lib = (s : Text) (n : ℕ) → parse_u16 s ≡ some n → lib.trim s ≡ s

parse_digits-bound :
    (bound acc n : ℕ) (s : Text) → acc ≤ bound → parse_digits bound acc s ≡ some n → n ≤ bound
unfolding parse_digits
parse_digits-bound bound acc n [] le e = ground arith
parse_digits-bound bound acc n (c ∷ s) le e =
    ground (arith, parse_digits-bound bound (acc * 10 + (c - b'0')) n s)

parse_u16_digits-bound : (n : ℕ) (s : Text) → parse_u16_digits s ≡ some n → n < 2 ^ 16
parse_u16_digits-bound n [] e = absurd cc
parse_u16_digits-bound n (c ∷ s) e =
    omega (arith, parse_digits-bound (2 ^ 16 - 1) 0 n (c ∷ s) (omega arith) e)

parse_u16-bound : (n : ℕ) (s : Text) → parse_u16 s ≡ some n → n < 2 ^ 16
unfolding parse_u16
parse_u16-bound n [] e = absurd cc
parse_u16-bound n (c ∷ s) e = elim (Bool-cases (c == b'+')) [
  | inl y ↦ parse_u16_digits-bound n s (sym (if_true _ _ _ y) ∙ e)
  | inr y ↦ parse_u16_digits-bound n (c ∷ s) (sym (if_false _ _ _ y) ∙ e)
]

split_once-digits :
    (fuel n : ℕ) (rest : Text)
    → split_once b'-' rest ≡ none
    → split_once b'-' (digits fuel n rest) ≡ none
unfolding split_once digits
split_once-digits zero n rest e = e
split_once-digits (suc fuel) n rest e =
    ground (arith, split_once-digits fuel (n / 10) ((b'0' + n % 10) ∷ rest))

port_text_one : (n : ℕ) → split_once b'-' (port_text n) ≡ none
unfolding split_once
port_text_one n = split_once-digits 5 n [] refl

parse_u16-port_text : (n : ℕ) → n < 2 ^ 16 → parse_u16 (port_text n) ≡ some n
unfolding parse_u16 parse_digits
parse_u16-port_text n h =
    let (c, s, e, lo, hi) = digits-head 4 n [] in
    let no_plus : (c == b'+') ≡ false = ground arith in
    ap parse_u16 e
    ∙ (if_false _ _ _ no_plus
        ∙ (ap (parse_digits (2 ^ 16 - 1) 0) (sym e)
            ∙ parse_digits-digits (2 ^ 16 - 1) 5 n [] (omega arith) (omega arith)))

single_port :
    {V4 V6 : Type 0} (lib : CidrLib V4 V6) (s : Text) (port : ℕ)
    → TrimKeeps lib
    → split_once b'-' s ≡ none
    → parse_u16 s ≡ some port
    → parse_port_range lib s ≡ some (port, port)
unfolding parse_port_range
single_port lib s port keeps n y = rw (parse_port_range, n, keeps s port y, y) refl

port_pair :
    {V4 V6 : Type 0} (lib : CidrLib V4 V6) (s start end : Text) (a b : ℕ)
    → TrimKeeps lib
    → split_once b'-' s ≡ some (start, end)
    → parse_u16 start ≡ some a
    → parse_u16 end ≡ some b
    → parse_port_range lib s ≡ some (a, b)
unfolding parse_port_range
port_pair lib s start end a b keeps n y z =
    rw (parse_port_range, n, keeps start a y, keeps end b z, y, z) refl

if_ordered-some :
    (x y : Option ℕ) (s s' : Text)
    → if_ordered x y s ≡ some s'
    → (a : ℕ) × (b : ℕ) × (x ≡ some a) × (y ≡ some b) × (s ≡ s')
if_ordered-some none y s s' e = absurd cc
if_ordered-some (some a) none s s' e = absurd cc
if_ordered-some (some a) (some b) s s' e = elim (Bool-cases (leb a b)) [
  | inl yes' ↦ (a, b, refl, refl, cc (sym (if_true _ _ _ yes') ∙ e))
  | inr no' ↦ absurd (cc (sym (if_false _ _ _ no') ∙ e))
]

-- A spec that the whitelist takes denotes a range, and the rule reads this range.
parse_port_spec-reads :
    {V4 V6 : Type 0} (lib : CidrLib V4 V6) (s s' : Text)
    → TrimKeeps lib
    → parse_port_spec s ≡ some s'
    → (r : ℕ × ℕ) × (port_range_of s ≡ some r) × (parse_port_range lib s' ≡ some r)
unfolding parse_port_spec parse_port_range
parse_port_spec-reads lib s s' keeps e = elim (Option-cases (split_once b'-' s)) [
  | inl n ↦ elim (Option-cases (parse_u16 s)) [
    | inl n' ↦ absurd (cc (rw (n, n', parse_port_spec) at e))
    | inr (port, y) ↦
        let text : port_text port ≡ s' = cc (rw (n, y, parse_port_spec) at e) in
        let read = parse_u16-port_text port (parse_u16-bound port s y) in
        (
          (port, port),
          rw (port_range_of, n, y) refl,
          rw (← text) (single_port lib (port_text port) port keeps (port_text_one port) read),
        )
  ]
  | inr ((start, end), y) ↦ elim (Option-cases (split_once b'-' end)) [
    | inr (x, more) ↦ absurd (cc (rw (y, more, parse_port_spec) at e))
    | inl n ↦
        let (a, b, x, z, same) =
          if_ordered-some (parse_u16 start) (parse_u16 end) s s'
            (rw (y, n, parse_port_spec) at e) in
        (
          (a, b),
          rw (port_range_of, y, x, z) refl,
          rw (← same) (port_pair lib s start end a b keeps y x z),
        )
  ]
]

abbrev pub in_range : ℕ → ℕ × ℕ → Bool
in_range q r = leb r.0 q && leb q r.1

abbrev pub in_option : ℕ → Option (ℕ × ℕ) → Bool
in_option q none = false
in_option q (some r) = in_range q r

-- A text denotes a range with the port in it.
abbrev pub port_in : ℕ → Text → Bool
port_in q s = in_option q (port_range_of s)

-- A packet with no port passes, where there is a whitelist.
abbrev pub port_listed : Option ℕ → List Text → Bool
port_listed q [] = false
port_listed none (s ∷ ss) = true
port_listed (some q) (s ∷ ss) = any_of (port_in q) (s ∷ ss)

cons_option-some :
    (x : Option Text) (xs : Option (List Text)) (ps : List Text)
    → cons_option x xs ≡ some ps
    → (p : Text) × (rest : List Text) × (x ≡ some p) × (xs ≡ some rest) × (ps ≡ p ∷ rest)
cons_option-some none xs ps e = absurd cc
cons_option-some (some x) none ps e = absurd cc
cons_option-some (some x) (some xs) ps e = (x, xs, refl, refl, cc)

module _ {V4 V6 : Type 0} (lib : CidrLib V4 V6) (keeps : TrimKeeps lib) where
  -- The rule's ranges have a port where the specs of the list do.
  any_of-parse_port_list :
      (q : ℕ) (ss ps : List Text)
      → parse_port_list ss ≡ some ps
      → any_of (in_range q) (filter_map (parse_port_range lib) ps) ≡ any_of (port_in q) ss
  unfolding parse_port_list
  any_of-parse_port_list q [] ps e = let none' : ps ≡ [] = cc in rw none' refl
  any_of-parse_port_list q (s ∷ ss) ps e =
      let (p, rest, x, xs, same) = cons_option-some (parse_port_spec s) (parse_port_list ss) ps e in
      let (r, denotes, reads) = parse_port_spec-reads lib s p keeps x in
      ap (λ l. any_of (in_range q) (filter_map (parse_port_range lib) l)) same
      ∙ (ap (λ o. any_of (in_range q) (push o (filter_map (parse_port_range lib) rest))) reads
          ∙ (ap (λ b. in_range q r || b) (any_of-parse_port_list q ss rest xs)
              ∙ ap (λ b. b || any_of (port_in q) ss) (sym (ap (in_option q) denotes))))

  -- A list that is not empty gives a range at least.
  parse_port_list-cons :
      (s : Text) (ss ps : List Text)
      → parse_port_list (s ∷ ss) ≡ some ps
      → (r : ℕ × ℕ) × (rs : List (ℕ × ℕ)) × (filter_map (parse_port_range lib) ps ≡ r ∷ rs)
  unfolding parse_port_list
  parse_port_list-cons s ss ps e =
      let (p, rest, x, xs, same) = cons_option-some (parse_port_spec s) (parse_port_list ss) ps e in
      let (r, denotes, reads) = parse_port_spec-reads lib s p keeps x in
      (
        r,
        filter_map (parse_port_range lib) rest,
        ap (λ l. filter_map (parse_port_range lib) l) same
            ∙ ap (λ o. push o (filter_map (parse_port_range lib) rest)) reads,
      )

  -- What the rule of a whitelist says of the port of a packet.
  pub port_matches-parse_port_list :
      (q : Option ℕ) (s : Text) (ss ps : List Text)
      → parse_port_list (s ∷ ss) ≡ some ps
      → port_matches q (filter_map (parse_port_range lib) ps) ≡ port_listed q (s ∷ ss)
  port_matches-parse_port_list none s ss ps e = refl
  port_matches-parse_port_list (some q) s ss ps e =
      let (r, rs, l) = parse_port_list-cons s ss ps e in
      ap (λ l. unless_empty l (any_of (in_range q) (filter_map (parse_port_range lib) ps))) l
      ∙ any_of-parse_port_list q (s ∷ ss) ps e
