-- ===== src/Text/Decimal.antt =====
-- `strconv.Atoi`, and that it reads back what `strconv.FormatUint` writes.
use mathlib.Core.Path.{subst}
use native.Mathlib.Nat.{pow-zero, pow-succ'}
use conntracct.Prelude.{
  ℕ, zero, suc, ◌+◌, ◌-◌, ◌*◌, ◌/◌, ◌%◌, ◌^◌, ◌<◌, ◌≤◌, ◌≡◌, refl, ap, sym, ◌∙◌, Bool, true, false,
  ◌&&◌, [], ◌∷◌, Option, none, some, ltb, leb, ◌==◌, arith, if◌then◌else◌, Bool-cases, inl, inr,
}
use conntracct.Prelude.Int.{ℤ, pos, negsuc}
use conntracct.Text.{Text, format_uint, format_from, digit}

-- The digits of a decimal number, after what is read already.
read_digits : Text → ℕ → Option ℕ
read_digits [] n = some n
read_digits (c ∷ s) n =
    let rest = read_digits s (n * 10 + (c - b'0')) in
    if leb b'0' c && leb c b'9' then rest else none

some_digits : Text → Option ℕ
unfolding read_digits
some_digits [] = none
some_digits (c ∷ s) = read_digits (c ∷ s) 0

-- The range of an int of 64 bits; -0 is 0.
in_range : Bool → Option ℕ → Option ℤ
in_range minus none = none
in_range false (some n) = if ltb n (2 ^ 63) then some (pos n) else none
in_range true (some n) =
    if n == 0 then some (pos 0) else if leb n (2 ^ 63) then some (negsuc (n - 1)) else none

-- `strconv.Atoi`, an error being `none`: a sign may stand first.
unfoldable pub atoi : Text → Option ℤ
unfolding some_digits in_range
atoi [] = none
atoi (c ∷ s) =
    if c == b'-'
    then in_range true (some_digits s)
    else if c == b'+'
    then in_range false (some_digits s)
    else in_range false (some_digits (c ∷ s))

read_digit :
    (n k : ℕ) (acc : Text) → n < 10 → read_digits (digit n ∷ acc) k ≡ read_digits acc (k * 10 + n)
unfolding read_digits
read_digit n k acc h = ground (arith, h)

write_last :
    (fuel n : ℕ) (acc : Text) → ltb n 10 ≡ true → format_from (suc fuel) 10 n acc ≡ digit n ∷ acc
unfolding format_from
write_last fuel n acc t =
    ap (λ b. if b then digit n ∷ acc else format_from fuel 10 (n / 10) (digit (n % 10) ∷ acc)) t

write_more :
    (fuel n : ℕ) (acc : Text)
    → ltb n 10 ≡ false
    → format_from (suc fuel) 10 n acc ≡ format_from fuel 10 (n / 10) (digit (n % 10) ∷ acc)
unfolding format_from
write_more fuel n acc f =
    ap (λ b. if b then digit n ∷ acc else format_from fuel 10 (n / 10) (digit (n % 10) ∷ acc)) f

write_nothing : (n : ℕ) (acc : Text) → format_from zero 10 n acc ≡ acc
unfolding format_from
write_nothing n acc = refl

read_digits-format_from :
    (fuel n : ℕ) (acc : Text)
    → n < 10 ^ fuel
    → read_digits (format_from fuel 10 n acc) 0 ≡ read_digits acc n
read_digits-format_from zero n acc h =
    ap (λ s. read_digits s 0) (write_nothing n acc)
    ∙ ap (read_digits acc) (omega (arith, pow-zero 10, h))
read_digits-format_from (suc fuel) n acc h = elim (Bool-cases (ltb n 10)) [
  | inl t ↦
      ap (λ s. read_digits s 0) (write_last fuel n acc t)
      ∙ (read_digit n 0 acc (ground (arith, t)) ∙ ap (read_digits acc) (omega arith))
  | inr g ↦
      ap (λ s. read_digits s 0) (write_more fuel n acc g)
      ∙ (read_digits-format_from fuel (n / 10) (digit (n % 10) ∷ acc)
            (omega (arith, pow-succ' 10 fuel, h))
          ∙ (read_digit (n % 10) (n / 10) acc (omega arith) ∙ ap (read_digits acc) (omega arith)))
]

-- What is written begins with a digit.
abbrev IsNumber : Text → Type 0
IsNumber [] = ⊥
IsNumber (c ∷ s) = b'0' ≤ c

digit-bound : (n : ℕ) → b'0' ≤ digit n
digit-bound n = ground arith

format_from-IsNumber :
    (fuel n : ℕ) (acc : Text) → IsNumber acc → IsNumber (format_from fuel 10 n acc)
format_from-IsNumber zero n acc h = subst IsNumber (sym (write_nothing n acc)) h
format_from-IsNumber (suc fuel) n acc h = elim (Bool-cases (ltb n 10)) [
  | inl t ↦ subst IsNumber (sym (write_last fuel n acc t)) (digit-bound n)
  | inr g ↦
      subst IsNumber (sym (write_more fuel n acc g))
        (format_from-IsNumber fuel (n / 10) (digit (n % 10) ∷ acc) (digit-bound (n % 10)))
]

format_uint-IsNumber : (n : ℕ) → IsNumber (format_uint 10 n)
unfolding format_uint
format_uint-IsNumber n = elim (Bool-cases (ltb n 10)) [
  | inl t ↦ subst IsNumber (sym (write_last 63 n [] t)) (digit-bound n)
  | inr g ↦
      subst IsNumber (sym (write_more 63 n [] g))
        (format_from-IsNumber 63 (n / 10) (digit (n % 10) ∷ []) (digit-bound (n % 10)))
]

atoi-IsNumber :
    (s : Text) (n : ℕ) → IsNumber s → read_digits s 0 ≡ some n → n < 2 ^ 63 → atoi s ≡ some (pos n)
unfolding atoi in_range some_digits
atoi-IsNumber [] n h r l = absurd h
atoi-IsNumber (c ∷ s) n h r l = ground (arith, h, r, l)

read_digits-format_uint : (n : ℕ) → n < 2 ^ 63 → read_digits (format_uint 10 n) 0 ≡ some n
unfolding format_uint read_digits
read_digits-format_uint n h = read_digits-format_from 64 n [] (omega (arith, h))

-- Atoi reads back a number that fits an int and that FormatUint wrote in base 10.
pub atoi-format_uint : (n : ℕ) → n < 2 ^ 63 → atoi (format_uint 10 n) ≡ some (pos n)
atoi-format_uint n h =
    atoi-IsNumber (format_uint 10 n) n (format_uint-IsNumber n) (read_digits-format_uint n h) h
