-- ===== src/Launch/CommandLine.antt =====
-- util/CommandLine.cpp: the command line that winws.exe is started with, as UTF-16 units.
use cheburnet.Base.{
  suc, ℕ, zero, ◌+◌, ◌*◌, Bool, true, false, not, ◌&&◌, ◌||◌, List, [], ◌∷◌, ◌++◌, Bytes, is_empty,
  every, ◌==◌, if◌then◌else◌,
}

-- The units that a token without quotes may not have: `L" \t\n\v\""`.
abbrev is_special : ℕ → Bool
is_special c = c == b' ' || (c == b'\t' || (c == b'\n' || (c == 0x0b || c == b'"')))

abbrev pub backslashes : ℕ → Bytes
backslashes zero = []
backslashes (suc n) = b'\\' ∷ backslashes n

-- The loop of `QuoteArgvW`, with the backslashes counted since the last other unit.
unfoldable pub quote_from : ℕ → Bytes → Bytes
quote_from pending [] = backslashes (pending * 2)
quote_from pending (c ∷ s) = elim (c == b'\\') [
  | true ↦ quote_from (suc pending) s
  | false ↦
      let rest = quote_from 0 s in
      if c == b'"'
      then backslashes (pending * 2 + 1) ++ (b'"' ∷ rest)
      else backslashes pending ++ (c ∷ rest)
]

unfoldable pub quote_argv : Bytes → Bytes
quote_argv arg =
    if not (is_empty arg) && every (λ c. not (is_special c)) arg
    then arg
    else b'"' ∷ (quote_from 0 arg ++ (b'"' ∷ []))

abbrev append_quoted : List Bytes → Bytes
append_quoted [] = []
append_quoted (arg ∷ args) = b' ' ∷ (quote_argv arg ++ append_quoted args)

-- `Build`
unfoldable pub build : Bytes → List Bytes → Bytes
build exe_path args = quote_argv exe_path ++ append_quoted args
