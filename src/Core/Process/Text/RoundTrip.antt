-- ===== src/Core/Process/Text/RoundTrip.antt =====
-- That a record that was saved is loaded again.
use cheburnet.Base.{
  ℕ, zero, suc, ◌+◌, ◌/◌, ◌%◌, ◌^◌, ◌≤◌, ◌<◌, ◌≡◌, refl, ◌∙◌, ap, true, false, not, ◌||◌, none,
  some, [], ◌∷◌, ◌++◌, arith, Bytes, codes, length, is_empty, every, bytes_eq, ltb, ◌==◌, within,
  if-holds,
}
use cheburnet.Version.{break_at}
use cheburnet.Update.Manifest.{◌>>=◌, ◌>>◌, require}
use cheburnet.Core.Process.{ProcessRecord, is_valid}
use cheburnet.Core.Process.Text.{
  digits_from, to_string, value_from, from_chars, trim_front, unless_blank, trim_back, lines_of,
  Parsed, nothing_parsed, read_pair, read_line, read_lines, whole_record, load_record, record_text,
  save_record,
}

value_from-digits_from :
    (fuel n : ℕ) (s : Bytes) → n < fuel → value_from 0 (digits_from fuel n s) ≡ value_from n s
unfolding digits_from
value_from-digits_from zero n s h = absurd (omega (arith, h))
value_from-digits_from (suc fuel) n s h =
    if-holds (λ t. value_from 0 t ≡ value_from n s) (ltb n 10) ((b'0' + n) ∷ s)
      (digits_from fuel (n / 10) ((b'0' + n % 10) ∷ s))
      (λ e. ap (λ k. value_from k s) (omega arith))
      (λ e.
        let large : 10 ≤ n = ground arith in
        let less : n / 10 < fuel = omega (arith, h, large) in
        value_from-digits_from fuel (n / 10) ((b'0' + n % 10) ∷ s) less
        ∙ ap (λ k. value_from k s) (omega arith))

every-digits_from :
    (fuel n : ℕ) (s : Bytes)
    → every (within b'0' b'9') s ≡ true
    → every (within b'0' b'9') (digits_from fuel n s) ≡ true
unfolding digits_from
every-digits_from zero n s h = h
every-digits_from (suc fuel) n s h =
    if-holds (λ t. every (within b'0' b'9') t ≡ true) (ltb n 10) ((b'0' + n) ∷ s)
      (digits_from fuel (n / 10) ((b'0' + n % 10) ∷ s)) (λ e. ground arith)
      (λ e. every-digits_from fuel (n / 10) ((b'0' + n % 10) ∷ s) (ground arith))

is_empty-digits_from : (fuel n c : ℕ) (s : Bytes) → is_empty (digits_from fuel n (c ∷ s)) ≡ false
unfolding digits_from
is_empty-digits_from zero n c s = refl
is_empty-digits_from (suc fuel) n c s =
    if-holds (λ t. is_empty t ≡ false) (ltb n 10) ((b'0' + n) ∷ c ∷ s)
      (digits_from fuel (n / 10) ((b'0' + n % 10) ∷ c ∷ s)) (λ e. refl)
      (λ e. is_empty-digits_from fuel (n / 10) (b'0' + n % 10) (c ∷ s))

is_empty-to_string : (n : ℕ) → is_empty (to_string n) ≡ false
unfolding digits_from
is_empty-to_string n =
    if-holds (λ t. is_empty t ≡ false) (ltb n 10) ((b'0' + n) ∷ [])
      (digits_from n (n / 10) ((b'0' + n % 10) ∷ [])) (λ e. refl)
      (λ e. is_empty-digits_from n (n / 10) (b'0' + n % 10) [])

ltb-true : (a b : ℕ) → a < b → ltb a b ≡ true
ltb-true a b h = ground arith

from_chars-whole :
    (bits : ℕ) (s : Bytes) (n : ℕ)
    → is_empty s ≡ false
    → every (within b'0' b'9') s ≡ true
    → value_from 0 s ≡ n
    → n < 2 ^ bits
    → from_chars bits s ≡ some n
unfolding from_chars
from_chars-whole bits s n full digits value h =
    let small : ltb (value_from 0 s) (2 ^ bits) ≡ true =
      ap (λ v. ltb v (2 ^ bits)) value ∙ ltb-true n (2 ^ bits) h in
    ground arith

from_chars-to_string : (bits n : ℕ) → n < 2 ^ bits → from_chars bits (to_string n) ≡ some n
unfolding from_chars
from_chars-to_string bits n h =
    let value = value_from-digits_from (suc n) n [] (omega arith) in
    let digits = every-digits_from (suc n) n [] refl in
    from_chars-whole bits (to_string n) n (is_empty-to_string n) digits value h

-- A line of the text, in front of its end.
lines_of-line :
    (line rest : Bytes)
    → every (λ c. not (c == b'\n')) line ≡ true
    → lines_of (line ++ (b'\n' ∷ rest)) ≡ line ∷ lines_of rest
unfolding lines_of
lines_of-line [] rest h = refl
lines_of-line (c ∷ line) rest h = ground (arith, lines_of-line line rest (ground arith))

trim_back-cons :
    (c : ℕ) (s : Bytes) → is_empty s ≡ false → trim_back s ≡ s → trim_back (c ∷ s) ≡ c ∷ s
unfolding trim_back
trim_back-cons c [] h e = absurd (ground arith)
trim_back-cons c (d ∷ s) h e = ap (unless_blank c) e

trim_back-digits : (s : Bytes) → every (within b'0' b'9') s ≡ true → trim_back s ≡ s
unfolding trim_back
trim_back-digits [] h = refl
trim_back-digits (c ∷ []) h = ground arith
trim_back-digits (c ∷ d ∷ s) h =
    trim_back-cons c (d ∷ s) refl (trim_back-digits (d ∷ s) (ground arith))

digits-line :
    (s : Bytes) → every (within b'0' b'9') s ≡ true → every (λ c. not (c == b'\n')) s ≡ true
digits-line [] h = refl
digits-line (c ∷ s) h = ground (arith, digits-line s (ground arith))

trim_back-key :
    (key s : Bytes) → is_empty s ≡ false → trim_back s ≡ s → trim_back (key ++ s) ≡ key ++ s
trim_back-key [] s h e = e
trim_back-key (c ∷ key) s h e =
    trim_back-cons c (key ++ s) (is_empty-append key s h) (trim_back-key key s h e)
  where
    is_empty-append : (key s : Bytes) → is_empty s ≡ false → is_empty (key ++ s) ≡ false
    is_empty-append [] s h = h
    is_empty-append (c ∷ key) s h = refl

module _ (to_utf16 : Bytes → Bytes) where
  -- What the three lines of a record give.
  read_line-pid :
      (s : Bytes) (n : ℕ)
      → is_empty s ≡ false
      → trim_back s ≡ s
      → from_chars 32 s ≡ some n
      → read_line to_utf16 (codes "pid=" ++ s) nothing_parsed
        ≡ some (record nothing_parsed { pid = some n })
  unfolding read_line trim_front break_at read_pair bytes_eq
  read_line-pid s n h e f =
      let whole = trim_back-key (codes "pid=") s h e in
      ap (λ t. let (key, value) = break_at b'=' t in read_pair to_utf16 key value nothing_parsed)
        whole
      ∙ ap (λ o. o >>= (λ n. some (record nothing_parsed { pid = some n }))) f

  abbrev with_pid : ℕ → Parsed
  with_pid pid = record nothing_parsed { pid = some pid }

  abbrev with_time : ℕ → ℕ → Parsed
  with_time pid time = record (with_pid pid) { creation_time = some time }

  abbrev with_image : ℕ → ℕ → Bytes → Parsed
  with_image pid time image = record (with_time pid time) { image = some image }

  read_line-time :
      (s : Bytes) (n pid : ℕ)
      → is_empty s ≡ false
      → trim_back s ≡ s
      → from_chars 64 s ≡ some n
      → read_line to_utf16 (codes "ctime=" ++ s) (with_pid pid) ≡ some (with_time pid n)
  unfolding read_line trim_front break_at read_pair bytes_eq
  read_line-time s n pid h e f =
      ap (λ t. let (key, value) = break_at b'=' t in read_pair to_utf16 key value (with_pid pid))
        (trim_back-key (codes "ctime=") s h e)
      ∙ ap (λ o. o >>= (λ n. some (with_time pid n))) f

  read_line-image :
      (s : Bytes) (pid time : ℕ)
      → is_empty s ≡ false
      → trim_back s ≡ s
      → length s ≤ 1024
      → read_line to_utf16 (codes "image=" ++ s) (with_time pid time)
        ≡ some (with_image pid time (to_utf16 s))
  unfolding read_line trim_front break_at read_pair bytes_eq
  read_line-image s pid time h e l =
      let fits : not (is_empty s || ltb 1024 (length s)) ≡ true = ground arith in
      ap
        (λ t.
          let (key, value) = break_at b'=' t in read_pair to_utf16 key value (with_time pid time))
        (trim_back-key (codes "image=") s h e)
      ∙ ap (λ b. require b >> some (with_image pid time (to_utf16 s))) fits

  -- The UTF-8 text of an image that a line can hold: not empty nor too long, with no line end, and with
  -- no blank at its end, which `Trim` would take off.
  pub record IsLine (image : Bytes) : Type 0 where
    pub full : is_empty image ≡ false
    pub short : length image ≤ 1024
    pub one_line : every (λ c. not (c == b'\n')) image ≡ true
    pub ends : trim_back image ≡ image

  record_text-lines :
      (r : ProcessRecord) (image : Bytes)
      → IsLine image
      → lines_of (record_text r image)
        ≡ (codes "pid=" ++ to_string r.pid)
          ∷ (codes "ctime=" ++ to_string r.creation_time)
          ∷ (codes "image=" ++ image)
          ∷ []
  record_text-lines r image i =
      let pid_digits = every-digits_from (suc r.pid) r.pid [] refl in
      let time_digits = every-digits_from (suc r.creation_time) r.creation_time [] refl in
      let pid_line : Bytes = codes "pid=" ++ to_string r.pid in
      let time_line : Bytes = codes "ctime=" ++ to_string r.creation_time in
      let last : Bytes = codes "image=" ++ (image ++ (b'\n' ∷ [])) in
      lines_of-line pid_line (time_line ++ (b'\n' ∷ last))
        (digits-line (to_string r.pid) pid_digits)
      ∙ ap (λ ls. pid_line ∷ ls)
          (lines_of-line time_line last (digits-line (to_string r.creation_time) time_digits)
            ∙ ap (λ ls. time_line ∷ ls)
                (lines_of-line (codes "image=" ++ image) [] i.one_line
                  ∙ ap (λ ls. (codes "image=" ++ image) ∷ ls) (unfold lines_of in refl)))

  read_lines-record :
      (r : ProcessRecord) (image : Bytes)
      → IsLine image
      → r.pid < 2 ^ 32
      → r.creation_time < 2 ^ 64
      → read_lines to_utf16
          ((codes "pid=" ++ to_string r.pid)
            ∷ (codes "ctime=" ++ to_string r.creation_time)
            ∷ (codes "image=" ++ image)
            ∷ [])
          nothing_parsed
        ≡ some (with_image r.pid r.creation_time (to_utf16 image))
  unfolding read_lines
  read_lines-record r image i p t =
      let pid_digits = every-digits_from (suc r.pid) r.pid [] refl in
      let time_digits = every-digits_from (suc r.creation_time) r.creation_time [] refl in
      let pid_line =
        read_line-pid (to_string r.pid) r.pid (is_empty-to_string r.pid)
          (trim_back-digits (to_string r.pid) pid_digits) (from_chars-to_string 32 r.pid p) in
      let time_line =
        read_line-time (to_string r.creation_time) r.creation_time r.pid
          (is_empty-to_string r.creation_time)
          (trim_back-digits (to_string r.creation_time) time_digits)
          (from_chars-to_string 64 r.creation_time t) in
      let image_line = read_line-image image r.pid r.creation_time i.full i.ends i.short in
      let image_text : Bytes = codes "image=" ++ image in
      let time_text : Bytes = codes "ctime=" ++ to_string r.creation_time in
      ap
        (λ o. o >>= (λ q.
          read_line to_utf16 time_text q
          >>= (λ q₁. read_line to_utf16 image_text q₁ >>= (λ q₂. some q₂))))
        pid_line
      ∙ (ap (λ o. o >>= (λ q. read_line to_utf16 image_text q >>= (λ q₁. some q₁))) time_line
          ∙ ap (λ o. o >>= (λ q. some q)) image_line)

  save_record-text :
      (to_utf8 : Bytes → Bytes) (r : ProcessRecord) {text : Bytes}
      → save_record to_utf8 r ≡ some text
      → (is_valid r ≡ true) × (text ≡ record_text r (to_utf8 r.image_path))
  unfolding save_record
  save_record-text to_utf8 r {text = text} h = ground arith

  -- A record that `SaveRecord` writes is loaded again as it was, where its id has 32 bits and its time
  -- 64, the text stays within the limit of the file, the UTF-8 text of its image fits a line, and the
  -- conversion back gives the image again.
  pub load_record-save_record :
      (to_utf8 : Bytes → Bytes) (r : ProcessRecord) {text : Bytes}
      → save_record to_utf8 r ≡ some text
      → r.pid < 2 ^ 32
      → r.creation_time < 2 ^ 64
      → length text ≤ 8192
      → IsLine (to_utf8 r.image_path)
      → to_utf16 (to_utf8 r.image_path) ≡ r.image_path
      → load_record to_utf16 text ≡ some r
  unfolding load_record
  load_record-save_record to_utf8 r {text = text} h p t l i back =
      let (valid, same) = save_record-text to_utf8 r {text = text} h in
      let image = to_utf8 r.image_path in
      let lines = ap lines_of same ∙ record_text-lines r image i in
      let parsed =
        ap (λ ls. read_lines to_utf16 ls nothing_parsed) lines ∙ read_lines-record r image i p t in
      let result = ap (λ o. o >>= whole_record to_utf16) parsed in
      let of_image : Bytes → ProcessRecord =
        λ path. record { pid = r.pid; creation_time = r.creation_time; image_path = path } in
      let whole =
        ap (λ path. require (is_valid (of_image path)) >> some (of_image path)) back
        ∙ ap (λ b. require b >> some r) valid in
      if-holds (λ o. o ≡ some r) (ltb 8192 (length text)) none
        (read_lines to_utf16 (lines_of text) nothing_parsed >>= whole_record to_utf16)
        (λ e. absurd (ground arith)) (λ e. result ∙ whole)
