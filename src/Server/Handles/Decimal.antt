-- ===== src/Server/Handles/Decimal.antt =====
-- `strconv.Itoa` on an `int` of 64 bits.
use sftp_go.Base.{
  ℕ, zero, suc, ◌+◌, ◌-◌, ◌*◌, ◌/◌, ◌%◌, ◌^◌, ◌<◌, ◌≡◌, refl, ap, ◌∙◌, sym, arith, [], ◌∷◌, ◌++◌,
  ltb, if◌then◌else◌,
}
use sftp_go.Wire.{Bytes}

-- The decimal digits, on fuel: a number has fewer of them than its value plus one.
unfoldable digits_of : ℕ → ℕ → Bytes
digits_of zero n = []
digits_of (suc fuel) n =
    let front = digits_of fuel (n / 10) in
    if ltb n 10 then (48 + n) ∷ [] else front ++ (48 + n % 10) ∷ []

unfoldable pub decimal : ℕ → Bytes
unfolding digits_of
decimal n = digits_of (suc n) n

unfoldable pub itoa : ℕ → Bytes
itoa i = if ltb i (2 ^ 63) then decimal i else 45 ∷ decimal (2 ^ 64 - i)

-- The number that a string of digits stands for.
unfoldable pub value_from : ℕ → Bytes → ℕ
value_from acc [] = acc
value_from acc (c ∷ cs) = value_from (10 * acc + (c - 48)) cs

value_from-append :
    (acc : ℕ) (cs : Bytes) (c : ℕ)
    → value_from acc (cs ++ c ∷ []) ≡ 10 * value_from acc cs + (c - 48)
unfolding value_from
value_from-append acc [] c = refl
value_from-append acc (d ∷ cs) c = value_from-append (10 * acc + (d - 48)) cs c

value_from-digits_of : (fuel n : ℕ) → n < fuel → value_from 0 (digits_of fuel n) ≡ n
unfolding value_from digits_of
value_from-digits_of zero n h = absurd (omega arith)
value_from-digits_of (suc fuel) n h = ground (
  arith,
  value_from-append 0 (digits_of fuel (n / 10)) (48 + n % 10),
  value_from-digits_of fuel (n / 10),
)

-- Printing a count that is not negative and reading it back gives the count.
pub value_from-itoa : (n : ℕ) → n < 2 ^ 63 → value_from 0 (itoa n) ≡ n
unfolding itoa decimal
value_from-itoa n h = ground (arith, value_from-digits_of (suc n) n)

pub itoa_injective : (m n : ℕ) → m < 2 ^ 63 → n < 2 ^ 63 → itoa m ≡ itoa n → m ≡ n
itoa_injective m n hm hn e =
    sym (value_from-itoa m hm) ∙ (ap (value_from 0) e ∙ value_from-itoa n hn)
