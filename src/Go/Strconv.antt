-- ===== src/Go/Strconv.antt =====
-- `strconv.ParseInt` at a given base and bit size, `%d` and `%08X`.
use native.Mathlib.Nat.{pow-suc}
use cnpg_plugin_pgbackrest.Base.{
  ℕ, zero, suc, ◌+◌, ◌-◌, ◌*◌, ◌/◌, ◌%◌, ◌^◌, ◌<◌, ◌≡◌, refl, ◌∙◌, ap, false, ◌&&◌, [], ◌∷◌, ◌++◌,
  append_assoc, Option, none, some, Text, ltb, leb, ◌==◌, if◌then◌else◌, arith, codes, sym,
  append-nil, Bool-cases, inl, inr, ltb→lt,
}
use cnpg_plugin_pgbackrest.Base.Int.{ℤ, pos, negsuc}

-- The value of a digit in the bases up to 36, letters in either case.
unfoldable pub digit_value : ℕ → Option ℕ
digit_value c =
    if leb b'0' c && leb c b'9'
    then some (c - b'0')
    else if leb b'a' c && leb c b'z'
    then some (c - b'a' + 10)
    else if leb b'A' c && leb c b'Z'
    then some (c - b'A' + 10)
    else none

-- The loop of `ParseUint`. Its overflow checks only fail earlier than the range test of `parse_int`.
unfoldable pub parse_digits : ℕ → ℕ → Text → Option ℕ
unfolding digit_value
parse_digits base acc [] = some acc
parse_digits base acc (c ∷ s) = elim (digit_value c) [
  | none ↦ none
  | some d ↦ let rest = parse_digits base (acc * base + d) s in if ltb d base then rest else none
]

-- An empty run of digits is a syntax error.
unfoldable pub parse_uint : ℕ → Text → Option ℕ
unfolding parse_digits
parse_uint base [] = none
parse_uint base (c ∷ s) = parse_digits base 0 (c ∷ s)

in_range_pos : ℕ → Option ℕ → Option ℤ
in_range_pos bits none = none
in_range_pos bits (some n) = if ltb n (2 ^ (bits - 1)) then some (pos n) else none

in_range_neg : ℕ → Option ℕ → Option ℤ
in_range_neg bits none = none
in_range_neg bits (some zero) = some (pos 0)
in_range_neg bits (some (suc n)) = if ltb n (2 ^ (bits - 1)) then some (negsuc n) else none

-- `strconv.ParseInt(s, base, bits)` for a base other than 0; `none` is any of its errors.
unfoldable pub parse_int : ℕ → ℕ → Text → Option ℤ
unfolding parse_uint in_range_pos in_range_neg
parse_int base bits [] = none
parse_int base bits (c ∷ s) =
    if c == b'-'
    then in_range_neg bits (parse_uint base s)
    else if c == b'+'
    then in_range_pos bits (parse_uint base s)
    else in_range_pos bits (parse_uint base (c ∷ s))

unfoldable pub hex_digit : ℕ → ℕ
hex_digit d = if ltb d 10 then b'0' + d else b'A' + (d - 10)

-- The last `k` hexadecimal digits of a number, in upper case.
unfoldable pub hex_fixed : ℕ → ℕ → Text
unfolding hex_digit
hex_fixed zero n = []
hex_fixed (suc k) n = hex_fixed k (n / 16) ++ hex_digit (n % 16) ∷ []

-- `%08X` of an int32. The sign counts in the width of eight.
unfoldable pub format_08X : ℤ → Text
unfolding hex_fixed
format_08X (pos n) = hex_fixed 8 n
format_08X (negsuc n) =
    b'-' ∷ (if ltb (n + 1) (16 ^ 7) then hex_fixed 7 (n + 1) else hex_fixed 8 (n + 1))

-- `%d` of a number that is not negative; the number itself is fuel enough for its digits.
unfoldable pub decimal : ℕ → ℕ → Text
decimal zero n = []
decimal (suc f) n =
    let rest = decimal f (n / 10) ++ (b'0' + n % 10) ∷ [] in
    if ltb n 10 then (b'0' + n) ∷ [] else rest

unfoldable pub itoa : ℕ → Text
unfolding decimal
itoa n = decimal (suc n) n

-- `strconv.FormatInt(n, 10)`
unfoldable pub format_int : ℤ → Text
unfolding itoa
format_int (pos n) = itoa n
format_int (negsuc n) = b'-' ∷ itoa (n + 1)

pub digit_value-hex_digit : (d : ℕ) → d < 16 → digit_value (hex_digit d) ≡ some d
unfolding digit_value hex_digit
digit_value-hex_digit d h = ground arith

pub digit_value-decimal : (d : ℕ) → d < 10 → digit_value (b'0' + d) ≡ some d
unfolding digit_value
digit_value-decimal d h = ground arith

-- One digit more.
parse_digits-cons :
    (base acc d c : ℕ) (s : Text)
    → digit_value c ≡ some d
    → d < base
    → parse_digits base acc (c ∷ s) ≡ parse_digits base (acc * base + d) s
unfolding parse_digits
parse_digits-cons base acc d c s e h = ground arith

place : (a k n : ℕ) → (a * 16 ^ k + n / 16) * 16 + n % 16 ≡ a * 16 ^ suc k + n
place a k n = rw pow-suc (grind arith)

div16_lt : (k n : ℕ) → n < 16 ^ suc k → n / 16 < 16 ^ k
div16_lt k n h = let p : n < 16 ^ k * 16 = rw pow-suc at h in omega arith

-- Reading the digits that `hex_fixed` prints, with a rest.
pub parse_digits-hex_fixed :
    (k acc n : ℕ) (rest : Text)
    → n < 16 ^ k
    → parse_digits 16 acc (hex_fixed k n ++ rest) ≡ parse_digits 16 (acc * 16 ^ k + n) rest
unfolding hex_fixed
parse_digits-hex_fixed zero acc n rest h = ap (λ v. parse_digits 16 v rest) (omega arith)
parse_digits-hex_fixed (suc k) acc n rest h = rw append_assoc (
    parse_digits-hex_fixed k acc (n / 16) (hex_digit (n % 16) ∷ rest) (div16_lt k n h)
    ∙ parse_digits-cons 16 (acc * 16 ^ k + n / 16) (n % 16) (hex_digit (n % 16)) rest
        (digit_value-hex_digit (n % 16) (omega arith)) (omega arith)
    ∙ ap (λ v. parse_digits 16 v rest) (place acc k n))

-- Reading the decimal digits of a number, with a rest: `suc n` is fuel enough for `decimal`.
pub parse_digits-decimal :
    (f n : ℕ) (rest : Text)
    → n < f
    → parse_digits 10 0 (decimal f n ++ rest) ≡ parse_digits 10 n rest
unfolding decimal
parse_digits-decimal zero n rest h = absurd (omega arith)
parse_digits-decimal (suc f) n rest h = elim (Bool-cases (ltb n 10)) [
  | inl small ↦ rw small (
      parse_digits-cons 10 0 n (b'0' + n) rest (digit_value-decimal n (ltb→lt n 10 small))
        (ltb→lt n 10 small)
      ∙ ap (λ v. parse_digits 10 v rest) (omega arith))
  | inr big ↦
      rw (big, append_assoc)
        (parse_digits-decimal f (n / 10) ((b'0' + n % 10) ∷ rest) (ground arith)
          ∙ parse_digits-cons 10 (n / 10) (n % 10) (b'0' + n % 10) rest
              (digit_value-decimal (n % 10) (omega arith)) (omega arith)
          ∙ ap (λ v. parse_digits 10 v rest) (omega arith))
]

-- Printing in decimal loses nothing.
pub parse_digits-itoa : (n : ℕ) → parse_digits 10 0 (itoa n) ≡ some n
unfolding itoa parse_digits
parse_digits-itoa n =
    rw (sym (append-nil (decimal (suc n) n))) (parse_digits-decimal (suc n) n [] (omega arith))

-- A text that begins with a digit is read with no sign.
pub parse_int-cons :
    (base bits c : ℕ) (s : Text) (n : ℕ)
    → (c == b'-') ≡ false
    → (c == b'+') ≡ false
    → parse_digits base 0 (c ∷ s) ≡ some n
    → parse_int base bits (c ∷ s) ≡ (if ltb n (2 ^ (bits - 1)) then some (pos n) else none)
unfolding parse_int in_range_pos
parse_int-cons base bits c s n minus plus e = rw (minus, plus, parse_int, e)

examples :
    (format_08X (pos 255) ≡ codes "000000FF")
    × (format_08X (negsuc 0) ≡ codes "-0000001")
    × (format_08X (negsuc 2147483647) ≡ codes "-80000000")
    × (itoa 1024 ≡ codes "1024")
    × (parse_int 16 32 (codes "7fffffff") ≡ some (pos 2147483647))
    × (parse_int 16 32 (codes "80000000") ≡ none)
    × (parse_int 10 64 (codes "-1") ≡ some (negsuc 0))
    × (parse_int 10 64 (codes "latest") ≡ none)
unfolding format_08X itoa parse_int codes
examples = (refl, refl, refl, refl, refl, refl, refl, refl)
