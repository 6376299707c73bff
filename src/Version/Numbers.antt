-- ===== src/Version/Numbers.antt =====
-- Decimal digits without leading zeros: the value determines the digits.
use cheburnet.Base.{
  ℕ, ◌+◌, ◌-◌, ◌*◌, ◌≤◌, ◌<◌, ◌≡◌, refl, true, false, [], ◌∷◌, Bytes, every, length, arith,
}
use cheburnet.Version.{is_digit, value_from, starts_with_zero}

-- A larger prefix before at least as many digits gives a larger value.
value_from-lt :
    (ds es : Bytes) (a b : ℕ)
    → every is_digit ds ≡ true
    → every is_digit es ≡ true
    → length ds ≤ length es
    → a < b
    → value_from a ds < value_from b es
unfolding is_digit
value_from-lt [] [] a b hd he l h = h
value_from-lt [] (e ∷ es) a b hd he l h =
    value_from-lt [] es a (b * 10 + (e - b'0')) refl (ground arith) (omega arith) (omega arith)
value_from-lt (d ∷ ds) [] a b hd he l h = absurd (omega arith)
value_from-lt (d ∷ ds) (e ∷ es) a b hd he l h =
    value_from-lt ds es (a * 10 + (d - b'0')) (b * 10 + (e - b'0')) (ground arith) (ground arith)
      (omega arith) (ground arith)

-- As many digits with the same value are the same digits.
value_from-injective :
    (ds es : Bytes) (a b : ℕ)
    → every is_digit ds ≡ true
    → every is_digit es ≡ true
    → length ds ≡ length es
    → value_from a ds ≡ value_from b es
    → (a ≡ b) × (ds ≡ es)
unfolding is_digit
value_from-injective [] [] a b hd he l h = (h, refl)
value_from-injective [] (e ∷ es) a b hd he l h = absurd (omega arith)
value_from-injective (d ∷ ds) [] a b hd he l h = absurd (omega arith)
value_from-injective (d ∷ ds) (e ∷ es) a b hd he l h =
    ground (arith, value_from-injective ds es (a * 10 + (d - b'0')) (b * 10 + (e - b'0')))

-- One digit at least, and no zero in front of another.
pub record IsCanonical (ds : Bytes) : Type 0 where
  pub digits : every is_digit ds ≡ true
  pub nonempty : 0 < length ds
  pub no_leading_zero : 1 < length ds → starts_with_zero ds ≡ false

value_from-lt_of_length :
    (ds es : Bytes)
    → IsCanonical ds
    → IsCanonical es
    → length ds < length es
    → value_from 0 ds < value_from 0 es
unfolding is_digit
value_from-lt_of_length ds [] p q l = absurd (omega arith)
value_from-lt_of_length ds (x ∷ es) p q l =
    value_from-lt ds es 0 (0 * 10 + (x - b'0')) p.digits (ground arith) (omega arith)
      (ground (arith, q.no_leading_zero (omega (arith, p.nonempty))))

pub IsCanonical-injective :
    (ds es : Bytes) → IsCanonical ds → IsCanonical es → value_from 0 ds ≡ value_from 0 es → ds ≡ es
IsCanonical-injective ds es p q h =
    (value_from-injective ds es 0 0 p.digits q.digits
      (grind (arith, value_from-lt_of_length ds es p q, value_from-lt_of_length es ds q p)) h).1
