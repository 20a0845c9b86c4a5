-- ===== src/Unicode/Format.antt =====
-- The verbs of fmt.Sprintf and encoding/hex that the program uses: %d, %05d and %03d of numbers that
-- are not negative, and hex.EncodeToString.
use wb_test_task.Base.{
  ℕ, zero, suc, ◌+◌, ◌-◌, ◌*◌, ◌/◌, ◌%◌, ◌<◌, ◌≡◌, refl, ◌∙◌, List, [], ◌∷◌, ◌++◌, length,
  replicate, ltb, if◌then◌else◌, arith, inl, inr, Bool-cases,
}
use wb_test_task.Base.Text.{Text}

-- The decimal digits; a round divides the number by ten, so that n + 1 rounds are enough for n.
unfoldable pub digits : ℕ → ℕ → Text
digits zero n = []
digits (suc fuel) n =
    let rest = digits fuel (n / 10) in
    if ltb n 10 then (48 + n) ∷ [] else rest ++ (48 + n % 10) ∷ []

-- %d
unfoldable pub decimal : ℕ → Text
unfolding digits
decimal n = digits (n + 1) n

-- %0wd
unfoldable pub decimal_padded : ℕ → ℕ → Text
unfolding decimal
decimal_padded width n = let text = decimal n in replicate (width - length text) 48 ++ text

unfoldable pub hex_digit : ℕ → ℕ
hex_digit n = if ltb n 10 then 48 + n else 87 + n

-- hex.EncodeToString
unfoldable pub hex_encode : List ℕ → Text
unfolding hex_digit
hex_encode [] = []
hex_encode (b ∷ bytes) = hex_digit (b / 16) ∷ hex_digit (b % 16) ∷ hex_encode bytes

-- The number that decimal digits stand for.
unfoldable pub read_decimal : ℕ → Text → ℕ
read_decimal acc [] = acc
read_decimal acc (c ∷ text) = read_decimal (acc * 10 + (c - 48)) text

read_decimal-append :
    (acc : ℕ) (s t : Text) → read_decimal acc (s ++ t) ≡ read_decimal (read_decimal acc s) t
unfolding read_decimal
read_decimal-append acc [] t = refl
read_decimal-append acc (c ∷ s) t = read_decimal-append (acc * 10 + (c - 48)) s t

read_decimal-digits : (fuel n : ℕ) → n < fuel → read_decimal 0 (digits fuel n) ≡ n
unfolding read_decimal digits
read_decimal-digits zero n h = absurd (omega arith)
read_decimal-digits (suc fuel) n h = elim (Bool-cases (ltb n 10)) [
  | inl e ↦ rw e (omega arith)
  | inr e ↦ rw e (
      read_decimal-append 0 (digits fuel (n / 10)) ((48 + n % 10) ∷ [])
      ∙ omega (arith, read_decimal-digits fuel (n / 10) (ground arith)))
]

read_decimal-zeros : (k : ℕ) (t : Text) → read_decimal 0 (replicate k 48 ++ t) ≡ read_decimal 0 t
unfolding read_decimal
read_decimal-zeros zero t = refl
read_decimal-zeros (suc k) t = read_decimal-zeros k t

-- A padded number reads back.
pub read_decimal-decimal_padded : (width n : ℕ) → read_decimal 0 (decimal_padded width n) ≡ n
unfolding decimal_padded
read_decimal-decimal_padded width n =
    read_decimal-zeros (width - length (decimal n)) (decimal n)
    ∙ read_decimal-digits (n + 1) n (omega arith)

-- hex.DecodeString of the lower-case digits.
unfoldable pub hex_value : ℕ → ℕ
hex_value c = if ltb c 58 then c - 48 else c - 87

unfoldable pub hex_decode : Text → List ℕ
unfolding hex_value
hex_decode [] = []
hex_decode (c ∷ []) = []
hex_decode (c ∷ d ∷ text) = (16 * hex_value c + hex_value d) ∷ hex_decode text

hex_value-hex_digit : (n : ℕ) → n < 16 → hex_value (hex_digit n) ≡ n
unfolding hex_value hex_digit
hex_value-hex_digit n h = ground arith

abbrev pub AreBytes : List ℕ → Type 0
AreBytes [] = Unit
AreBytes (b ∷ bytes) = (b < 256) × AreBytes bytes

pub hex_decode-hex_encode :
    (bytes : List ℕ) → AreBytes bytes → hex_decode (hex_encode bytes) ≡ bytes
unfolding hex_decode hex_encode
hex_decode-hex_encode [] h = refl
hex_decode-hex_encode (b ∷ bytes) (p, h) =
    let hi = hex_value-hex_digit (b / 16) (omega arith) in
    let lo = hex_value-hex_digit (b % 16) (omega arith) in
    let same : 16 * (b / 16) + b % 16 ≡ b = omega arith in
    rw (hi, lo, same, hex_decode-hex_encode bytes h) refl

pub length-hex_encode : (bytes : List ℕ) → length (hex_encode bytes) ≡ 2 * length bytes
unfolding hex_encode
length-hex_encode [] = refl
length-hex_encode (b ∷ bytes) = omega (arith, length-hex_encode bytes)
