-- ===== src/Uint128/Print.antt =====
-- How identifiers are printed: `operator<<`, `to_string` and `to_u16string` of sample_data.cpp, and
-- `operator<<` of grail_types.cpp. The stream is decimal before the call, with no other flags set.
use cpp_owl_common.Prelude.{
  ℕ, zero, suc, ◌+◌, ◌*◌, ◌/◌, ◌%◌, ◌^◌, ◌<◌, ◌≤◌, ◌≡◌, sym, ap, ap₂, ◌∙◌, List, [], ◌∷◌, ◌++◌,
  append_assoc, ltb, if◌then◌else◌, true, false, lt→ltb, Bool-cases, inl, inr, arith,
}
use native.Mathlib.Nat.{pow-succ'}
use cpp_owl_common.Uint128.{Uint128}

-- The character of a digit.
abbrev digit : ℕ → ℕ
digit d = if ltb d 10 then 48 + d else 87 + d

-- The digits of a number in a base of two or more, with no zeros in front; a 64-bit number has 64
-- digits at most.
unfoldable pub digits : ℕ → ℕ → ℕ → List ℕ
digits base zero n = []
digits base (suc fuel) n =
    let rest = digits base fuel (n / base) in
    if ltb n base then digit n ∷ [] else rest ++ (digit (n % base) ∷ [])

-- What a stream prints for a uint64_t.
unfoldable pub print_hex : ℕ → List ℕ
unfolding digits
print_hex n = digits 16 64 n

unfoldable pub print_decimal : ℕ → List ℕ
unfolding digits
print_decimal n = digits 10 64 n

-- `os << "0x" << std::hex << upper << lower << std::dec`
unfoldable pub print : Uint128 → List ℕ
unfolding print_hex
print val = (48 ∷ 120 ∷ []) ++ (print_hex val.upper ++ print_hex val.lower)

unfoldable pub to_string : Uint128 → List ℕ
unfolding print_decimal
to_string val = print_decimal val.lower

unfoldable pub to_u16string : Uint128 → List ℕ
unfolding to_string
to_u16string val = to_string val

-- `is >> newval; val.lower = newval;` for the number that the stream gives.
unfoldable pub read_from : ℕ → Uint128 → Uint128
read_from newval val = record val { lower = newval }

-- One digit more in front of the last.
digits_round :
    (base fuel n : ℕ)
    → base ≤ n
    → digits base (suc fuel) n ≡ digits base fuel (n / base) ++ (digit (n % base) ∷ [])
unfolding digits
digits_round base fuel n b = let more : ltb n base ≡ false = ground arith in rw more

digits_last : (base fuel n : ℕ) → n < base → digits base (suc fuel) n ≡ digit n ∷ []
unfolding digits
digits_last base fuel n b = let last : ltb n base ≡ true = lt→ltb n base b in rw last

half : (fuel n : ℕ) → n < 2 ^ suc fuel → n / 16 < 2 ^ fuel
half fuel n b = let two : 2 ^ suc fuel ≡ 2 * 2 ^ fuel = pow-succ' 2 fuel in omega arith

-- Fuel for one digit more changes nothing.
digits_fuel : (fuel n : ℕ) → n < 2 ^ fuel → digits 16 (suc fuel) n ≡ digits 16 (suc (suc fuel)) n
digits_fuel zero n b = digits_last 16 zero n (omega arith) ∙ sym (digits_last 16 1 n (omega arith))
digits_fuel (suc fuel) n b = elim (Bool-cases (ltb n 16)) [
  | inl last ↦
      digits_last 16 (suc fuel) n (ground arith)
      ∙ sym (digits_last 16 (suc (suc fuel)) n (ground arith))
  | inr more ↦
      digits_round 16 (suc fuel) n (ground arith)
      ∙ ap (λ (x : List ℕ). x ++ (digit (n % 16) ∷ [])) (digits_fuel fuel (n / 16) (half fuel n b))
      ∙ sym (digits_round 16 (suc (suc fuel)) n (ground arith))
]

-- Sixteen times a number and a digit more is printed as the number and the digit.
print_hex-shift :
    (u d : ℕ) → 1 ≤ u → u < 2 ^ 60 → d < 16 → print_hex (16 * u + d) ≡ print_hex u ++ (digit d ∷ [])
unfolding print_hex
print_hex-shift u d some small below =
    let quotient : (16 * u + d) / 16 ≡ u = omega arith in
    let remainder : (16 * u + d) % 16 ≡ d = omega arith in
    digits_round 16 63 (16 * u + d) (omega arith)
    ∙ ap₂ (λ (x y : ℕ). digits 16 63 x ++ (digit y ∷ [])) quotient remainder
    ∙ ap (λ (x : List ℕ). x ++ (digit d ∷ [])) (digits_fuel 62 u (omega arith))

print_hex-digit : (d : ℕ) → d < 16 → print_hex d ≡ digit d ∷ []
unfolding print_hex
print_hex-digit d below = digits_last 16 63 d below

-- Printing does not tell identifiers apart: for u and d with 1 ≤ u < 2 ^ 60 and 1 ≤ d < 16, the
-- identifier with the upper half 16 u + d and the lower half 0 prints as the one with the upper half
-- u and the lower half 16 d does, since the lower half is printed without its leading zeros.
pub print-collision :
    (u d : ℕ)
    → 1 ≤ u
    → u < 2 ^ 60
    → 1 ≤ d
    → d < 16
    → (print (record { upper = 16 * u + d; lower = 0 })
        ≡ print (record { upper = u; lower = 16 * d }))
unfolding print
print-collision u d some small positive below =
    let zero_digit : print_hex 0 ≡ digit 0 ∷ [] = print_hex-digit 0 (omega arith) in
    let shifted : print_hex (16 * d + 0) ≡ print_hex d ++ (digit 0 ∷ []) =
      print_hex-shift d 0 positive (omega arith) (omega arith) in
    let plain : 16 * d + 0 ≡ 16 * d = omega arith in
    let lower : print_hex (16 * d) ≡ (digit d ∷ []) ++ (digit 0 ∷ []) =
      sym (ap print_hex plain)
      ∙ shifted
      ∙ ap (λ (x : List ℕ). x ++ (digit 0 ∷ [])) (print_hex-digit d below) in
    ap (λ (x : List ℕ). (48 ∷ 120 ∷ []) ++ x)
      (ap₂ (λ (x y : List ℕ). x ++ y) (print_hex-shift u d some small below) zero_digit
        ∙ append_assoc (print_hex u) (digit d ∷ []) (digit 0 ∷ [])
        ∙ ap (λ (x : List ℕ). print_hex u ++ x) (sym lower))
