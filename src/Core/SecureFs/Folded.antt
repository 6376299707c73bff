-- ===== src/Core/SecureFs/Folded.antt =====
-- Lying below a directory, of paths that are folded.
use cheburnet.Base.{
  ℕ, zero, suc, ◌≤◌, ◌<◌, ◌≡◌, refl, sym, ◌∙◌, ap, subst, ◌≢◌, ◌⊎◌, inl, inr, true, false, List, [],
  ◌∷◌, ◌++◌, arith, Bytes, length, take, drop, bytes_eq_iff, ==_iff, append_assoc, append-nil,
  length-append, Bool-cases,
}
use cheburnet.Update.Package.{starts_with}
use cheburnet.Core.SecureFs.{ends_with_slash, with_slash, is_below}

take-drop : {A : Type 0} (n : ℕ) (s : List A) → take n s ++ drop n s ≡ s
take-drop zero s = refl
take-drop (suc n) [] = refl
take-drop (suc n) (x ∷ s) = ap (λ r. x ∷ r) (take-drop n s)

-- Where a text starts with another, it is that one and a rest.
starts_with-split :
    (s prefix : Bytes) → starts_with s prefix ≡ true → (rest : Bytes) × (s ≡ prefix ++ rest)
starts_with-split s prefix h =
    let same = (bytes_eq_iff (take (length prefix) s) prefix).0 h in
    (
      drop (length prefix) s,
      sym (take-drop (length prefix) s) ∙ ap (λ r. r ++ drop (length prefix) s) same,
    )

take-length : (prefix rest : Bytes) → take (length prefix) (prefix ++ rest) ≡ prefix
take-length [] rest = refl
take-length (x ∷ prefix) rest = ap (λ r. x ∷ r) (take-length prefix rest)

append-starts_with : (prefix rest : Bytes) → starts_with (prefix ++ rest) prefix ≡ true
append-starts_with prefix rest =
    (bytes_eq_iff (take (length prefix) (prefix ++ rest)) prefix).1 (take-length prefix rest)

-- With the slash at its end, a path is what it was, or one character longer.
with_slash-split : (s : Bytes) → (end : Bytes) × ((with_slash s ≡ s ++ end) × (length end ≤ 1))
with_slash-split s = elim (Bool-cases (ends_with_slash s)) [
  | inl yes_slash ↦ ([], (ground (arith, append-nil s), omega arith))
  | inr no_slash ↦ (b'\\' ∷ [], (ground arith, omega arith))
]

pub is_below-parts :
    (root candidate : Bytes)
    → is_below root candidate ≡ true
    → (root ≢ [])
      × ((length root < length candidate) × (starts_with candidate (with_slash root) ≡ true))
unfolding is_below
is_below-parts root candidate h = (λ e. absurd (ground arith), (ground arith, ground arith))

is_below-made :
    (root candidate : Bytes)
    → root ≢ []
    → length root < length candidate
    → starts_with candidate (with_slash root) ≡ true
    → is_below root candidate ≡ true
unfolding is_below
is_below-made [] candidate h k l = absurd (h refl)
is_below-made (c ∷ root) [] h k l = absurd (omega (arith, k))
is_below-made (c ∷ root) (d ∷ candidate) h k l = ground arith

regroup : (p r e q : Bytes) → ((p ++ r) ++ e) ++ q ≡ p ++ (r ++ (e ++ q))
regroup p r e q = append_assoc (p ++ r) e q ∙ append_assoc p r (e ++ q)

-- What lies below a path that lies below a third one lies below that.
pub is_below_trans :
    (a b c : Bytes) → is_below a b ≡ true → is_below b c ≡ true → is_below a c ≡ true
is_below_trans a b c h k =
    let (a_full, (a_short, a_prefix)) = is_below-parts a b h in
    let (b_full, (b_short, b_prefix)) = is_below-parts b c k in
    let (r, e) = starts_with-split b (with_slash a) a_prefix in
    let (r₁, e₁) = starts_with-split c (with_slash b) b_prefix in
    let (end, (split, short)) = with_slash-split b in
    let whole : c ≡ with_slash a ++ (r ++ (end ++ r₁)) =
      e₁ ∙ ap (λ t. t ++ r₁) (split ∙ ap (λ t. t ++ end) e) ∙ regroup (with_slash a) r end r₁ in
    is_below-made a c a_full (omega (arith, a_short, b_short)) (
      subst (λ t. starts_with t (with_slash a) ≡ true) (sym whole)
        (append-starts_with (with_slash a) (r ++ (end ++ r₁))))

-- A path is not below one that is no longer.
pub is_below-short : (a b : Bytes) → length b ≤ length a → is_below a b ≡ false
unfolding is_below
is_below-short a b h = ground arith

-- A path is another one, a backslash, which may be the other one's last character, and a rest.
pub record IsUnder (root path : Bytes) : Type 0 where
  pub front : Bytes
  pub rest : Bytes
  pub split : path ≡ front ++ (b'\\' ∷ rest)
  pub at_root : (root ≡ front) ⊎ ((root ≡ front ++ (b'\\' ∷ [])) × (rest ≢ []))

-- What ends with a slash is a text and the slash.
ends_with_slash-split :
    (s : Bytes) → ends_with_slash s ≡ true → (front : Bytes) × (s ≡ front ++ (b'\\' ∷ []))
ends_with_slash-split [] h = absurd (ground arith)
ends_with_slash-split (c ∷ []) h = ([], ap (λ d. d ∷ []) ((==_iff c b'\\').0 h))
ends_with_slash-split (c ∷ d ∷ s) h =
    let (front, e) = ends_with_slash-split (d ∷ s) h in (c ∷ front, ap (λ t. c ∷ t) e)

pub is_below-IsUnder : (root path : Bytes) → is_below root path ≡ true → IsUnder root path
is_below-IsUnder root path h =
    let (full, (longer, prefix)) = is_below-parts root path h in
    let (rest, e) = starts_with-split path (with_slash root) prefix in
    elim (Bool-cases (ends_with_slash root)) [
      | inl yes_slash ↦
          let (front, made) = ends_with_slash-split root yes_slash in
          let whole : path ≡ root ++ rest = e ∙ ap (λ t. t ++ rest) (ground arith) in
          record {
            front = front;
            rest = rest;
            split = whole ∙ ap (λ t. t ++ rest) made ∙ append_assoc front (b'\\' ∷ []) rest;
            at_root = inr (
              made,
              λ empty.
                  let same : path ≡ root = whole ∙ ap (λ t. root ++ t) empty ∙ append-nil root in
                  absurd (omega (arith, longer, ap length same)),
            );
          }
      | inr no_slash ↦
          let whole : path ≡ (root ++ (b'\\' ∷ [])) ++ rest =
            e ∙ ap (λ t. t ++ rest) (ground arith) in
          record {
            front = root;
            rest = rest;
            split = whole ∙ append_assoc root (b'\\' ∷ []) rest;
            at_root = inl refl;
          }
    ]

length-positive : (s : Bytes) → s ≢ [] → 0 < length s
length-positive [] h = absurd (h refl)
length-positive (c ∷ s) h = omega arith

ends_with_slash-append : (front : Bytes) → ends_with_slash (front ++ (b'\\' ∷ [])) ≡ true
ends_with_slash-append [] = refl
ends_with_slash-append (c ∷ []) = refl
ends_with_slash-append (c ∷ d ∷ s) = ends_with_slash-append (d ∷ s)

-- A longer path that starts with the other one and its slash lies below it.
is_below-append :
    (root path rest : Bytes)
    → root ≢ []
    → length root < length path
    → path ≡ with_slash root ++ rest
    → is_below root path ≡ true
is_below-append root path rest full longer e = is_below-made root path full longer (
    subst (λ t. starts_with t (with_slash root) ≡ true) (sym e)
      (append-starts_with (with_slash root) rest))

pub IsUnder-is_below :
    (root path : Bytes) → root ≢ [] → IsUnder root path → is_below root path ≡ true
IsUnder-is_below root path full u = elim u.at_root [
  | inl e ↦
      let whole : path ≡ root ++ (b'\\' ∷ u.rest) =
        u.split ∙ ap (λ t. t ++ (b'\\' ∷ u.rest)) (sym e) in
      let longer : length root < length path =
        omega (arith, ap length whole, length-append root (b'\\' ∷ u.rest)) in
      elim (Bool-cases (ends_with_slash root)) [
        | inl yes_slash ↦
            is_below-append root path (b'\\' ∷ u.rest) full longer (ground (arith, whole))
        | inr no_slash ↦
            let regrouped = whole ∙ sym (append_assoc root (b'\\' ∷ []) u.rest) in
            is_below-append root path u.rest full longer (ground (arith, regrouped))
      ]
  | inr (e, some_rest) ↦
      let whole : path ≡ root ++ u.rest =
        u.split ∙ sym (append_assoc u.front (b'\\' ∷ []) u.rest) ∙ ap (λ t. t ++ u.rest) (sym e) in
      let yes_slash : ends_with_slash root ≡ true =
        ap ends_with_slash e ∙ ends_with_slash-append u.front in
      is_below-append root path u.rest full
        (omega
          (arith, ap length whole, length-append root u.rest, length-positive u.rest some_rest))
        (ground (arith, whole))
]
