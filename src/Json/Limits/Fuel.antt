-- ===== src/Json/Limits/Fuel.antt =====
-- The fuel of every loop of the JSON reader suffices: `parse` never returns `out_of_fuel`.
use cheburnet.Base.{
  ℕ, zero, suc, ◌+◌, ◌*◌, ◌%◌, ◌≤◌, ◌<◌, ◌≡◌, refl, Bytes, arith, Bool, true, false, length, [],
  ◌∷◌, ◌++◌, drop, inl, inr,
}
use cheburnet.Json.{JsonError, out_of_fuel, Result, ok, err, ◌>>=◌, Result-cases, Value}
use cheburnet.Json.Text.{
  hex_value, hex_from, hex4, continue_from, copy_tail, copy_utf8, low_surrogate, unicode_escape,
  escape, Piece, close, piece, read_piece, string_from, parse_string,
}
use cheburnet.Json.Parser.{
  Read, skip_whitespace, skip_digits, parse_literal, parse_number, integer_part, fraction_part,
  exponent_part, sign_part,
}

abbrev pub is_fuel : JsonError → Bool
is_fuel out_of_fuel = true
is_fuel _ = false

-- The result is no lack of fuel, and a good one leaves at most `n` bytes.
abbrev pub Ends {ℓ} : {A : Type ℓ} → (A → Bytes) → ℕ → Result A → Type 0
Ends rest n (ok a) = length (rest a) ≤ n
Ends rest n (err why left) = is_fuel why ≡ false

abbrev pub behind {ℓ} : {A : Type ℓ} → A × Bytes → Bytes
behind x = x.1

abbrev pub behind_read : Read → Bytes
behind_read x = x.1

hex_from-Ends : (k value : ℕ) (s : Bytes) → Ends behind (length s) (hex_from k value s)
unfolding hex_from
hex_from-Ends zero value s = omega arith
hex_from-Ends (suc k) value [] = refl
hex_from-Ends (suc k) value (c ∷ s) = ground (arith, hex_from-Ends k (value * 16 + hex_value c) s)

hex4-Ends : (s : Bytes) → Ends behind (length s) (hex4 s)
unfolding hex4
hex4-Ends s = ground (arith, hex_from-Ends 4 0 s)

abbrev behind_three : ℕ × Bytes × Bytes → Bytes
behind_three x = x.2

continue_from-Ends : (k cp : ℕ) (s : Bytes) → Ends behind_three (length s) (continue_from k cp s)
unfolding continue_from
continue_from-Ends zero cp s = omega arith
continue_from-Ends (suc k) cp [] = refl
continue_from-Ends (suc k) cp (c ∷ s) = ground (arith, continue_from-Ends k (cp * 64 + c % 64) s)

copy_tail-Ends :
    (lead k bits low : ℕ) (s : Bytes) → Ends behind (length s) (copy_tail lead k bits low s)
unfolding copy_tail
copy_tail-Ends lead k bits low s = ground (arith, continue_from-Ends k bits s)

copy_utf8-Ends : (lead : ℕ) (s : Bytes) → Ends behind (length s) (copy_utf8 lead s)
unfolding copy_utf8
copy_utf8-Ends lead s = ground (
  arith,
  copy_tail-Ends lead 1 (lead % 32) 0x80 s,
  copy_tail-Ends lead 2 (lead % 16) 0x800 s,
  copy_tail-Ends lead 3 (lead % 8) 0x10000 s,
)

low_surrogate-Ends : (high : ℕ) (s : Bytes) → Ends behind (length s) (low_surrogate high s)
unfolding low_surrogate
low_surrogate-Ends high [] = refl
low_surrogate-Ends high (a ∷ []) = refl
low_surrogate-Ends high (a ∷ b ∷ s) = ground (arith, hex4-Ends s)

unicode_escape-Ends : (s : Bytes) → Ends behind (length s) (unicode_escape s)
unfolding unicode_escape
unicode_escape-Ends s = elim (Result-cases (hex4 s)) [
  | inl (why, left, failed) ↦ ground (arith, hex4-Ends s)
  | inr ((first, left), read) ↦ ground (arith, hex4-Ends s, low_surrogate-Ends first left)
]

escape-Ends : (s : Bytes) → Ends behind (length s) (escape s)
unfolding escape
escape-Ends [] = refl
escape-Ends (e ∷ s) = ground (arith, unicode_escape-Ends s)

abbrev behind_piece : Piece → Bytes
behind_piece (close rest) = rest
behind_piece (piece bytes rest) = rest

read_piece-Ends : (c : ℕ) (s : Bytes) → Ends behind_piece (length s) (read_piece c s)
unfolding read_piece
read_piece-Ends c s = ground (arith, copy_utf8-Ends c s, escape-Ends s)

string_from-Ends :
    (fuel : ℕ) (s out : Bytes) → length s < fuel → Ends behind (length s) (string_from fuel s out)
unfolding string_from
string_from-Ends zero s out h = absurd (omega arith)
string_from-Ends (suc fuel) [] out h = refl
string_from-Ends (suc fuel) (c ∷ s) out h = elim (Result-cases (read_piece c s)) [
  | inl (why, left, failed) ↦ ground (arith, read_piece-Ends c s)
  | inr (close left, read) ↦ ground (arith, read_piece-Ends c s)
  | inr (piece bytes left, read) ↦
      ground (arith, read_piece-Ends c s, string_from-Ends fuel left (out ++ bytes))
]

pub parse_string-Ends : (s : Bytes) → Ends behind (length s) (parse_string s)
unfolding parse_string
parse_string-Ends s = string_from-Ends (suc (length s)) s [] (omega arith)

pub length-skip_whitespace : (s : Bytes) → length (skip_whitespace s) ≤ length s
unfolding skip_whitespace
length-skip_whitespace [] = omega arith
length-skip_whitespace (c ∷ s) = ground (arith, length-skip_whitespace s)

length-skip_digits : (s : Bytes) → length (skip_digits s) ≤ length s
unfolding skip_digits
length-skip_digits [] = omega arith
length-skip_digits (c ∷ s) = ground (arith, length-skip_digits s)

length-drop : (n : ℕ) (s : Bytes) → length (drop n s) ≤ length s
length-drop zero s = omega arith
length-drop (suc n) [] = omega arith
length-drop (suc n) (c ∷ s) = omega (arith, length-drop n s)

abbrev itself : Bytes → Bytes
itself s = s

sign_part-Ends : (s : Bytes) → Ends itself (length s) (sign_part s)
unfolding sign_part
sign_part-Ends [] = omega arith
sign_part-Ends (c ∷ s) = ground arith

integer_part-Ends : (s : Bytes) → Ends itself (length s) (integer_part s)
unfolding integer_part
integer_part-Ends [] = refl
integer_part-Ends (c ∷ s) = ground (arith, length-skip_digits s)

fraction_part-Ends : (s : Bytes) → Ends itself (length s) (fraction_part s)
unfolding fraction_part
fraction_part-Ends [] = omega arith
fraction_part-Ends (c ∷ s) = ground (arith, length-skip_digits s)

exponent_part-Ends : (s : Bytes) → Ends itself (length s) (exponent_part s)
unfolding exponent_part
exponent_part-Ends [] = omega arith
exponent_part-Ends (c ∷ []) = ground arith
exponent_part-Ends (c ∷ d ∷ s) = ground (arith, length-skip_digits s, length-skip_digits (d ∷ s))

pub parse_literal-Ends :
    (literal : Bytes) (v : Value) (values : ℕ) (s : Bytes)
    → Ends behind_read (length s) (parse_literal literal v values s)
unfolding parse_literal
parse_literal-Ends literal v values s = ground (arith, length-drop (length literal) s)

pub bind-Ends {ℓ κ} :
    {A : Type ℓ} {B : Type κ} (rest : A → Bytes) (rest' : B → Bytes) (n : ℕ) (m : Result A)
    (f : A → Result B)
    → Ends rest n m
    → ((a : A) → length (rest a) ≤ n → Ends rest' n (f a))
    → Ends rest' n (m >>= f)
bind-Ends rest rest' n (ok a) f h k = k a h
bind-Ends rest rest' n (err why left) f h k = h

pub weaken-Ends {ℓ} :
    {A : Type ℓ} (rest : A → Bytes) (n m : ℕ) (r : Result A) → n ≤ m → Ends rest n r → Ends rest m r
weaken-Ends rest n m (ok a) l h = omega arith
weaken-Ends rest n m (err why left) l h = h

pub parse_number-Ends :
    (values : ℕ) (s : Bytes) → Ends behind_read (length s) (parse_number values s)
unfolding parse_number
parse_number-Ends values s =
    bind-Ends itself behind_read (length s) (sign_part s) _ (sign_part-Ends s) λ a la.
      bind-Ends itself behind_read (length s) (integer_part a) _
        (weaken-Ends itself _ _ _ la (integer_part-Ends a))
        λ b lb.
          bind-Ends itself behind_read (length s) (fraction_part b) _
            (weaken-Ends itself _ _ _ lb (fraction_part-Ends b))
            λ c lc.
              bind-Ends itself behind_read (length s) (exponent_part c) _
                (weaken-Ends itself _ _ _ lc (exponent_part-Ends c)) λ d ld. ld
