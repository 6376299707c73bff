-- ===== src/Update/Manager/Names.antt =====
-- Which names `IsSafeStagingFileName` lets through.
use cheburnet.Base.{
  ℕ, zero, suc, ◌∙◌, sym, ◌≡◌, refl, ap, true, false, not, ◌||◌, ◌&&◌, [], ◌∷◌, arith, Bytes, codes,
  length, every, bytes_eq, take, drop, within, ◌==◌,
}
use cheburnet.Version.{break_at}
use cheburnet.Update.Package.{
  good_component, reserved, folded, to_lower, contains, bad_char, numbered, bad_end,
}
use cheburnet.Update.Manager.{
  is_safe_staging_file_name, staging_char, device_name, to_upper, upper, first_is, last_is,
}

-- No character that is let through is refused in a path, or is a separator.
staging_char-good :
    (c : ℕ)
    → staging_char c ≡ true
    → (bad_char c ≡ false)
      × (((c == b'\\') ≡ false)
          × (((c == b'/') ≡ false) × (((c == b':') ≡ false) × ((c == 0) ≡ false))))
staging_char-good c h = ground arith

every-staging :
    (s : Bytes)
    → every staging_char s ≡ true
    → (every (λ c. not (bad_char c)) s ≡ true)
      × ((contains b'\\' s ≡ false)
          × ((contains b'/' s ≡ false) × ((contains b':' s ≡ false) × (contains 0 s ≡ false))))
every-staging [] h = ground arith
every-staging (c ∷ s) h =
    let here : staging_char c ≡ true = ground arith in
    let later : every staging_char s ≡ true = ground arith in
    let (a, (b, (d, (e, f)))) = staging_char-good c here in
    let (a₁, (b₁, (d₁, (e₁, f₁)))) = every-staging s later in
    (ground arith, (ground arith, (ground arith, (ground arith, ground arith))))

last_is-bad_end : (s : Bytes) → (last_is b' ' s || last_is b'.' s) ≡ bad_end s
last_is-bad_end [] = refl
last_is-bad_end (c ∷ []) = refl
last_is-bad_end (c ∷ d ∷ s) = last_is-bad_end (d ∷ s)

to_lower-to_upper :
    (c t : ℕ) → within b'a' b'z' t ≡ true → (to_lower c == t) ≡ (to_upper c == to_upper t)
to_lower-to_upper c t h = ground arith

digit-fold : (c : ℕ) → within b'1' b'9' (to_lower c) ≡ within b'1' b'9' (to_upper c)
digit-fold c = ground arith

-- A word in small letters is compared with small letters as its capitals are with capitals.
folded-upper :
    (s t : Bytes)
    → every (within b'a' b'z') t ≡ true
    → bytes_eq (folded s) t ≡ bytes_eq (upper s) (upper t)
unfolding bytes_eq
folded-upper [] [] h = refl
folded-upper [] (y ∷ t) h = refl
folded-upper (x ∷ s) [] h = refl
folded-upper (x ∷ s) (y ∷ t) h =
    let here : within b'a' b'z' y ≡ true = ground arith in
    let later : every (within b'a' b'z') t ≡ true = ground arith in
    ground (arith, to_lower-to_upper x y here, folded-upper s t later)

folded-length : (s : Bytes) → length (folded s) ≡ length (upper s)
folded-length [] = refl
folded-length (x ∷ s) = ap suc (folded-length s)

take-folded : (n : ℕ) (s : Bytes) → take n (folded s) ≡ folded (take n s)
take-folded zero s = refl
take-folded (suc n) [] = refl
take-folded (suc n) (x ∷ s) = ap (λ r. to_lower x ∷ r) (take-folded n s)

take-upper : (n : ℕ) (s : Bytes) → take n (upper s) ≡ upper (take n s)
take-upper zero s = refl
take-upper (suc n) [] = refl
take-upper (suc n) (x ∷ s) = ap (λ r. to_upper x ∷ r) (take-upper n s)

drop-digits :
    (n : ℕ) (s : Bytes)
    → every (within b'1' b'9') (drop n (folded s)) ≡ every (within b'1' b'9') (drop n (upper s))
drop-digits zero [] = refl
drop-digits zero (x ∷ s) = ground (arith, digit-fold x, drop-digits zero s)
drop-digits (suc n) [] = refl
drop-digits (suc n) (x ∷ s) = drop-digits n s

-- The first letters of a device with a number.
stem-fold :
    (s t : Bytes)
    → every (within b'a' b'z') t ≡ true
    → bytes_eq (take 3 (folded s)) t ≡ bytes_eq (take 3 (upper s)) (upper t)
stem-fold s t h =
    ap (λ r. bytes_eq r t) (take-folded 3 s)
    ∙ folded-upper (take 3 s) t h
    ∙ ap (λ r. bytes_eq r (upper t)) (sym (take-upper 3 s))

numbered-upper :
    (s : Bytes)
    → numbered (folded s) ≡ (
        length (upper s) == 4
        && ((bytes_eq (take 3 (upper s)) (codes "COM") || bytes_eq (take 3 (upper s)) (codes "LPT"))
            && every (within b'1' b'9') (drop 3 (upper s))))
numbered-upper s =
    let length_eq = folded-length s in
    let serial = stem-fold s (codes "com") refl in
    let parallel = stem-fold s (codes "lpt") refl in let digits = drop-digits 3 s in ground arith

-- The two files test for a device in the same way, one in small letters and one in capitals.
reserved-device_name : (name : Bytes) → reserved name ≡ device_name (upper (break_at b'.' name).0)
unfolding reserved
reserved-device_name name =
    let base = (break_at b'.' name).0 in
    let con = folded-upper base (codes "con") refl in
    let prn = folded-upper base (codes "prn") refl in
    let aux = folded-upper base (codes "aux") refl in
    let nul = folded-upper base (codes "nul") refl in
    let digits = numbered-upper base in ground arith

first_is-dots :
    (s : Bytes)
    → first_is b'.' s ≡ false
    → (bytes_eq s (codes ".") ≡ false) × (bytes_eq s (codes "..") ≡ false)
unfolding bytes_eq
first_is-dots [] h = ground arith
first_is-dots (c ∷ s) h = ground arith

-- A name that `IsSafeStagingFileName` accepts is a good component of a path in the sense of
-- `NormalizePackagePath`, not a device of the system, and has no slash, backslash or colon.
pub is_safe_staging_file_name-good_component :
    (name : Bytes)
    → is_safe_staging_file_name name ≡ true
    → (good_component name ≡ true)
      × ((contains b'/' name ≡ false)
          × ((contains b'\\' name ≡ false) × (contains b':' name ≡ false)))
unfolding is_safe_staging_file_name good_component
is_safe_staging_file_name-good_component name h =
    let (chars, (back, (slash, (colon, nul)))) = every-staging name (ground arith) in
    let ends = last_is-bad_end name in
    let dots = first_is-dots name (ground arith) in
    let device = reserved-device_name name in (ground arith, (slash, (back, colon)))
