-- ===== src/Core/Process/Text.antt =====
-- core/ProcessManager.cpp: the text of the record, as `SaveRecord` writes it and `LoadRecord` reads it
-- behind the opening and the reading of the file. `str::ToUtf8` and `str::ToUtf16` ask the system and
-- are parameters.
pub mod RoundTrip
use cheburnet.Base.{
  ℕ, zero, suc, ◌+◌, ◌-◌, ◌*◌, ◌/◌, ◌%◌, ◌^◌, Bool, true, false, not, ◌&&◌, ◌||◌, Option, none,
  some, List, [], ◌∷◌, ◌++◌, Bytes, codes, length, is_empty, every, bytes_eq, ltb, leb, ◌==◌,
  within, if◌then◌else◌,
}
use cheburnet.Version.{break_at}
use cheburnet.Update.Manifest.{◌>>=◌, ◌>>◌, require}
use cheburnet.Core.Process.{ProcessRecord, is_valid}

-- `std::to_string`, the last digit first found; a number has no more digits than its value.
unfoldable pub digits_from : ℕ → ℕ → Bytes → Bytes
digits_from zero n s = s
digits_from (suc fuel) n s =
    let rest = digits_from fuel (n / 10) ((b'0' + n % 10) ∷ s) in
    if ltb n 10 then (b'0' + n) ∷ s else rest

abbrev pub to_string : ℕ → Bytes
to_string n = digits_from (suc n) n []

-- `std::from_chars` of an unsigned number of the given width, over the whole text.
abbrev pub value_from : ℕ → Bytes → ℕ
value_from n [] = n
value_from n (c ∷ s) = value_from (n * 10 + (c - b'0')) s

unfoldable pub from_chars : ℕ → Bytes → Option ℕ
from_chars bits s =
    if not (is_empty s) && (every (within b'0' b'9') s && ltb (value_from 0 s) (2 ^ bits))
    then some (value_from 0 s)
    else none

abbrev pub is_ws : ℕ → Bool
is_ws c = c == b' ' || (c == b'\t' || (c == b'\r' || c == b'\n'))

-- `Trim`: first the loop from the front, then the one from the back.
unfoldable pub trim_front : Bytes → Bytes
trim_front [] = []
trim_front (c ∷ s) = let rest = trim_front s in if is_ws c then rest else c ∷ s

abbrev pub unless_blank : ℕ → Bytes → Bytes
unless_blank c [] = if is_ws c then [] else c ∷ []
unless_blank c (d ∷ s) = c ∷ d ∷ s

unfoldable pub trim_back : Bytes → Bytes
trim_back [] = []
trim_back (c ∷ s) = unless_blank c (trim_back s)

abbrev pub trim : Bytes → Bytes
trim s = trim_back (trim_front s)

-- The lines of the loop; behind the last line end there is no further one.
abbrev pub onto_first : ℕ → List Bytes → List Bytes
onto_first c [] = (c ∷ []) ∷ []
onto_first c (line ∷ lines) = (c ∷ line) ∷ lines

unfoldable pub lines_of : Bytes → List Bytes
lines_of [] = []
lines_of (c ∷ s) = if c == b'\n' then [] ∷ lines_of s else onto_first c (lines_of s)

-- What the lines have given so far.
pub record Parsed : Type 0 where
  pub pid : Option ℕ
  pub creation_time : Option ℕ
  pub image : Option Bytes

abbrev pub nothing_parsed : Parsed
nothing_parsed = record { pid = none; creation_time = none; image = none }

abbrev pub is_missing {ℓ} : {A : Type ℓ} → Option A → Bool
is_missing none = true
is_missing (some a) = false

module _ (to_utf16 : Bytes → Bytes) where
  -- A line `key=value`; `none` invalidates the whole record.
  unfoldable pub read_pair : Bytes → Option Bytes → Parsed → Option Parsed
  read_pair key none p = none
  read_pair key (some value) p =
      if bytes_eq key (codes "pid")
      then (do
        require (is_missing p.pid)
        pid ← from_chars 32 value
        some (record p { pid = some pid }))
      else if bytes_eq key (codes "ctime")
      then (do
        require (is_missing p.creation_time)
        time ← from_chars 64 value
        some (record p { creation_time = some time }))
      else if bytes_eq key (codes "image")
      then (do
        require (is_missing p.image)
        require (not (is_empty value || ltb 1024 (length value)))
        some (record p { image = some (to_utf16 value) }))
      else none

  unfoldable pub read_line : Bytes → Parsed → Option Parsed
  read_line line p = let (key, value) = break_at b'=' (trim line) in read_pair key value p

  unfoldable pub read_lines : List Bytes → Parsed → Option Parsed
  read_lines [] p = some p
  read_lines (line ∷ lines) p = do next ← read_line line p; read_lines lines next

  abbrev pub whole_record : Parsed → Option ProcessRecord
  whole_record p = do
    pid ← p.pid
    time ← p.creation_time
    image ← p.image
    require (is_valid (record { pid = pid; creation_time = time; image_path = image }))
    some (record { pid = pid; creation_time = time; image_path = image })

  -- `LoadRecord`: `none` stands for an empty record.
  unfoldable pub load_record : Bytes → Option ProcessRecord
  load_record content =
      if ltb 8192 (length content)
      then none
      else (do p ← read_lines (lines_of content) nothing_parsed; whole_record p)

abbrev pub record_text : ProcessRecord → Bytes → Bytes
record_text r image =
    codes "pid="
    ++ (to_string r.pid
        ++ (b'\n'
            ∷ (codes "ctime="
                ++ (to_string r.creation_time
                    ++ (b'\n' ∷ (codes "image=" ++ (image ++ (b'\n' ∷ []))))))))

-- `SaveRecord`: the text that is written, if any.
unfoldable pub save_record : (Bytes → Bytes) → ProcessRecord → Option Bytes
save_record to_utf8 r =
    if not (is_valid r)
      || (not (every (λ c. not (c == b'\r' || c == b'\n')) r.image_path)
          || is_empty (to_utf8 r.image_path))
    then none
    else some (record_text r (to_utf8 r.image_path))
