-- ===== src/Json/Quoted.antt =====
-- `ParseString` reads back what `Quote` writes.
use cheburnet.Base.{
  ℕ, zero, suc, ◌/◌, ◌%◌, ◌≤◌, ◌<◌, true, false, [], ◌∷◌, ◌++◌, append_assoc, append-nil, Bytes,
  ◌≡◌, refl, ap, ◌∙◌, arith, length, ltb, leb, ◌==◌, inl, inr, Bool-cases, length-append, every,
}
use cheburnet.Json.{ok}
use cheburnet.Json.Text.{
  hex_digit, utf8, hex4, hex_from, continue_from, copy_tail, copy_utf8, unicode_escape, escape,
  piece, read_piece, string_from, parse_string, quote_byte, quote_bytes,
}
use cheburnet.Json.Utf8.{IsScalar, IsUtf8, nil, char}

read_plain :
    (c : ℕ) (r : Bytes)
    → 0x20 ≤ c
    → c < 0x80
    → (c == b'"') ≡ false
    → (c == b'\\') ≡ false
    → read_piece c r ≡ ok (piece (c ∷ []) r)
unfolding read_piece
read_plain c r lo hi q b = ground arith

hex4-control :
    (c : ℕ) (r : Bytes)
    → c < 0x20
    → hex4 (b'0' ∷ b'0' ∷ hex_digit (c / 16) ∷ hex_digit (c % 16) ∷ r) ≡ ok (c, r)
unfolding hex4 hex_from
hex4-control c r h = ground arith

string_from-quote_ascii :
    (fuel c : ℕ) (r out : Bytes)
    → c < 0x80
    → string_from (suc fuel) (quote_byte c ++ r) out ≡ string_from fuel r (out ++ (c ∷ []))
unfolding string_from quote_byte read_piece escape unicode_escape utf8
string_from-quote_ascii fuel c r out h = ground (arith, hex4-control c r)

utf8-high : (cp : ℕ) → 0x80 ≤ cp → every (leb 0x80) (utf8 cp) ≡ true
unfolding utf8
utf8-high cp h = ground arith

utf8-low : (cp : ℕ) → cp < 0x80 → utf8 cp ≡ cp ∷ []
unfolding utf8
utf8-low cp h = ground arith

quote_bytes-high :
    (bytes s : Bytes)
    → every (leb 0x80) bytes ≡ true
    → quote_bytes (bytes ++ s) ≡ bytes ++ quote_bytes s
unfolding quote_bytes quote_byte
quote_bytes-high [] s h = refl
quote_bytes-high (c ∷ bytes) s h = ground (arith, quote_bytes-high bytes s)

-- The reader takes a character above ASCII as it stands, in one round.
string_from-utf8 :
    (fuel cp : ℕ) (rest out : Bytes)
    → IsScalar cp
    → 0x80 ≤ cp
    → string_from (suc fuel) (utf8 cp ++ rest) out ≡ string_from fuel rest (out ++ utf8 cp)
unfolding string_from read_piece copy_utf8 copy_tail continue_from utf8
string_from-utf8 fuel cp rest out scalar h = ground arith

-- The reader takes the quoted form of one character in one round.
string_from-quote_char :
    (fuel cp : ℕ) (s r out : Bytes)
    → IsScalar cp
    → string_from (suc fuel) (quote_bytes (utf8 cp ++ s) ++ r) out
      ≡ string_from fuel (quote_bytes s ++ r) (out ++ utf8 cp)
string_from-quote_char fuel cp s r out scalar = elim (Bool-cases (ltb cp 0x80)) [
  | inl low ↦ rw (utf8-low cp (ground arith)) (
      unfold quote_bytes in
      rw append_assoc (string_from-quote_ascii fuel cp (quote_bytes s ++ r) out (ground arith)))
  | inr high ↦
      rw (quote_bytes-high (utf8 cp) s (utf8-high cp (ground arith)), append_assoc)
        (string_from-utf8 fuel cp (quote_bytes s ++ r) out scalar (ground arith))
]

length-utf8 : (cp : ℕ) → 0 < length (utf8 cp)
unfolding utf8
length-utf8 cp = ground arith

string_from-quote :
    {s : Bytes} (fuel : ℕ) (rest out : Bytes)
    → IsUtf8 s
    → length s < fuel
    → string_from fuel (quote_bytes s ++ (b'"' ∷ rest)) out ≡ ok (out ++ s, rest)
string_from-quote (suc fuel) rest out nil h =
    unfold string_from quote_bytes read_piece in rw append-nil
string_from-quote zero rest out u h = absurd (omega arith)
string_from-quote (suc fuel) rest out (char {s} cp scalar u e) h = rw e (
    string_from-quote_char fuel cp s (b'"' ∷ rest) out scalar
    ∙ string_from-quote fuel rest (out ++ utf8 cp) u
        (omega (arith, ap (length {A = ℕ}) e, length-append (utf8 cp) s, length-utf8 cp))
    ∙ rw append_assoc)

length-quote_byte : (c : ℕ) → 0 < length (quote_byte c)
unfolding quote_byte
length-quote_byte c = ground arith

length-quote_bytes : (s : Bytes) → length s ≤ length (quote_bytes s)
unfolding quote_bytes
length-quote_bytes [] = omega arith
length-quote_bytes (c ∷ s) =
    omega (
      arith,
      length-append (quote_byte c) (quote_bytes s),
      length-quote_byte c,
      length-quote_bytes s,
    )

-- The reader gives back every well-formed UTF-8 text from its quoted form, and stops behind it.
pub parse_string-quote :
    (s rest : Bytes) → IsUtf8 s → parse_string (quote_bytes s ++ (b'"' ∷ rest)) ≡ ok (s, rest)
unfolding parse_string
parse_string-quote s rest u =
    string_from-quote _ rest [] u
      (omega (arith, length-append (quote_bytes s) (b'"' ∷ rest), length-quote_bytes s))
