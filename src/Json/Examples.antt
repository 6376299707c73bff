-- ===== src/Json/Examples.antt =====
-- Runs of the string reader and of `Quote`.
use cheburnet.Base.{◌≤◌, ◌≢◌, [], ◌∷◌, ◌++◌, ◌≡◌, refl, codes, true}
use cheburnet.Json.{
  ok, out_of_fuel, err, duplicate_key, trailing_data, leading_zero, nesting_limit, number, boolean,
  array, object, nil, cons, end, field, invalid_utf8, invalid_code_point, lone_high_surrogate,
}
use cheburnet.Json.Parser.{parse, default_options, parser_code}
use cheburnet.Json.Text.{parse_string, quote, quote_bytes, text_code}
use cheburnet.Json.Utf8.{IsUtf8, parse_string-IsUtf8}
use cheburnet.Json.Quoted.{parse_string-quote}
use cheburnet.Json.Limits.{depth, nodes, IsFormed}
use cheburnet.Json.Limits.Token.{parse-IsSound}
use cheburnet.Json.Limits.Total.{parse-ne-out_of_fuel}

escapes :
    parse_string (codes "a\\n\\u0041\\ud83d\\ude00\" x")
    ≡ ok (codes "a\nA" ++ (0xf0 ∷ 0x9f ∷ 0x98 ∷ 0x80 ∷ []), codes " x")
unfolding text_code
escapes = refl

refused :
    (parse_string (0xc0 ∷ 0x80 ∷ b'"' ∷ []) ≡ err invalid_utf8 (0x80 ∷ b'"' ∷ []))
    × (parse_string (0xed ∷ 0xa0 ∷ 0x80 ∷ b'"' ∷ []) ≡ err invalid_code_point (b'"' ∷ []))
    × (parse_string (codes "\\ud800x\"") ≡ err lone_high_surrogate (codes "x\""))
unfolding text_code
refused = (refl, refl, refl)

quoted : quote (codes "a\"b\\\n" ++ (0x01 ∷ [])) ≡ codes "\"a\\\"b\\\\\\n\\u0001\""
unfolding text_code
quoted = refl

document :
    parse default_options (codes " {\"a\": [1, -2.5e3, true], \"b\": {}}\n")
    ≡ ok (
        object (
          field
            (codes "a")
            (array (
              cons (number (codes "1")) (cons (number (codes "-2.5e3")) (cons (boolean true) nil))))
            (field (codes "b") (object end) end)))
unfolding parser_code
document = refl

refused_documents :
    (parse default_options (codes "{\"a\":1,\"a\":2}") ≡ err duplicate_key (codes "}"))
    × (parse default_options (codes "[1] x") ≡ err trailing_data (codes "x"))
    × (parse default_options (codes "01") ≡ err leading_zero (codes "1"))
    × (parse (record default_options { max_depth = 1 }) (codes "[[[1]]]")
        ≡ err nesting_limit (codes "[1]]]"))
unfolding parser_code
refused_documents = (refl, refl, refl, refl)

parse_string-IsUtf8_example : IsUtf8 (codes "a")
unfolding text_code
parse_string-IsUtf8_example =
    parse_string-IsUtf8 (codes "\\u0061\" x") {text = codes "a"} {rest = codes " x"} refl

parse_string-quote_example :
    parse_string (quote_bytes (codes "a") ++ (b'"' ∷ codes " x")) ≡ ok (codes "a", codes " x")
parse_string-quote_example = parse_string-quote (codes "a") (codes " x") parse_string-IsUtf8_example

parse-IsSound_example :
    (depth (object (field (codes "a") (number (codes "1")) end)) ≤ 32)
    × (nodes (object (field (codes "a") (number (codes "1")) end)) ≤ 8192)
    × IsFormed (object (field (codes "a") (number (codes "1")) end))
unfolding parser_code
parse-IsSound_example =
    parse-IsSound default_options (codes "{\"a\":1}")
      {v = object (field (codes "a") (number (codes "1")) end)} refl

parse-ne-out_of_fuel_example : parse default_options (codes "[[1") ≢ err out_of_fuel []
parse-ne-out_of_fuel_example = parse-ne-out_of_fuel default_options (codes "[[1") []
