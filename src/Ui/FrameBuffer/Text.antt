-- ===== src/Ui/FrameBuffer/Text.antt =====
-- `PutText` against a plain description: every character of the first line is put into its own column.
use cheburnet.Base.{
  ℕ, ◌≡◌, refl, sym, ◌∙◌, ap, Bool, true, false, [], ◌∷◌, Bytes, arith, Bool-cases, inl, inr,
  if◌then◌else◌, ◌==◌,
}
use cheburnet.Base.Integers.{ℤ, pos, negsuc, next}
use cheburnet.Ui.FrameBuffer.{FrameBuffer, set_at, put_ch, in_row, beyond, text_from, put_text}
use cheburnet.Ui.FrameBuffer.Whole.{put_ch-IsDrawn}

-- The line up to its end, put character by character.
abbrev pub put_each : ℤ → ℤ → Bytes → ℕ → FrameBuffer → FrameBuffer
put_each x y [] attr fb = fb
put_each x y (ch ∷ text) attr fb =
    let rest = put_each (next x) y text attr (put_ch x y ch attr fb) in
    if ch == b'\n' then fb else rest

if-same {ℓ} : {A : Type ℓ} (b : Bool) {x y : A} → y ≡ x → (if b then x else y) ≡ x
if-same true e = refl
if-same false e = e

-- Behind the right edge, and above or below the window, nothing is put.
put_ch-beyond :
    (x y : ℤ) (ch attr : ℕ) (fb : FrameBuffer) → beyond x fb.w ≡ true → put_ch x y ch attr fb ≡ fb
unfolding put_ch
put_ch-beyond (pos x) (pos y) ch attr fb h = ground arith
put_ch-beyond (pos x) (negsuc y) ch attr fb h = refl
put_ch-beyond (negsuc x) y ch attr fb h = refl

put_ch-outside :
    (x y : ℤ) (ch attr : ℕ) (fb : FrameBuffer) → in_row y fb.h ≡ false → put_ch x y ch attr fb ≡ fb
unfolding put_ch
put_ch-outside (pos x) (pos y) ch attr fb h = ground arith
put_ch-outside (pos x) (negsuc y) ch attr fb h = refl
put_ch-outside (negsuc x) y ch attr fb h = refl

put_each-outside :
    (x y : ℤ) (text : Bytes) (attr : ℕ) (fb : FrameBuffer)
    → in_row y fb.h ≡ false
    → put_each x y text attr fb ≡ fb
put_each-outside x y [] attr fb h = refl
put_each-outside x y (ch ∷ text) attr fb h =
    let e = put_ch-outside x y ch attr fb h in
    let later = put_each-outside (next x) y text attr fb h in
    if-same (ch == b'\n') (ap (put_each (next x) y text attr) e ∙ later)

next-beyond : (x : ℤ) (w : ℕ) → beyond x w ≡ true → beyond (next x) w ≡ true
next-beyond (pos x) w h = ground arith
next-beyond (negsuc x) w h = absurd (ground arith)

put_each-beyond :
    (x y : ℤ) (text : Bytes) (attr : ℕ) (fb : FrameBuffer)
    → beyond x fb.w ≡ true
    → put_each x y text attr fb ≡ fb
put_each-beyond x y [] attr fb h = refl
put_each-beyond x y (ch ∷ text) attr fb h =
    let e = put_ch-beyond x y ch attr fb h in
    let later = put_each-beyond (next x) y text attr fb (next-beyond x fb.w h) in
    if-same (ch == b'\n') (ap (put_each (next x) y text attr) e ∙ later)

-- In a row of the window, the loop puts a character as `PutCh` does.
set_at-put_ch :
    (x y : ℤ) (ch attr : ℕ) (fb : FrameBuffer)
    → in_row y fb.h ≡ true
    → (if in_row x fb.w then set_at x y (record { char = ch; attributes = attr }) fb else fb)
      ≡ put_ch x y ch attr fb
unfolding put_ch
set_at-put_ch (pos x) (pos y) ch attr fb h = ground arith
set_at-put_ch (pos x) (negsuc y) ch attr fb h = absurd (ground arith)
set_at-put_ch (negsuc x) y ch attr fb h = refl

if-either {ℓ} :
    {A : Type ℓ} (b : Bool) {p q r : A} → (b ≡ true → p ≡ q) → r ≡ q → (if b then p else r) ≡ q
if-either true f e = f refl
if-either false f e = e

text_from-put_each :
    (x y : ℤ) (text : Bytes) (attr : ℕ) (fb : FrameBuffer)
    → in_row y fb.h ≡ true
    → text_from x y text attr fb ≡ put_each x y text attr fb
unfolding text_from
text_from-put_each x y [] attr fb h = refl
text_from-put_each x y (ch ∷ text) attr fb h =
    let put = put_ch x y ch attr fb in
    let drawn = put_ch-IsDrawn x y ch attr fb in
    let one = set_at-put_ch x y ch attr fb h in
    let later = text_from-put_each (next x) y text attr put (ap (in_row y) drawn.same_h ∙ h) in
    let edge : beyond (next x) fb.w ≡ true → put ≡ put_each (next x) y text attr put =
      λ e. sym (put_each-beyond (next x) y text attr put (ap (beyond (next x)) drawn.same_w ∙ e)) in
    ap (λ r. if ch == b'\n' then fb else r)
      (ap (λ p. if beyond (next x) fb.w then p else text_from (next x) y text attr p) one
        ∙ if-either (beyond (next x) fb.w) edge later)

-- `PutText` is the same as putting the characters up to the end of the line one by one, each a column
-- further to the right, with `PutCh`: the early exits at the right edge and for a row outside the
-- window leave out only characters that `PutCh` would not put.
pub put_text-put_each :
    (x y : ℤ) (text : Bytes) (attr : ℕ) (fb : FrameBuffer)
    → put_text x y text attr fb ≡ put_each x y text attr fb
unfolding put_text
put_text-put_each x y text attr fb = elim (Bool-cases (in_row y fb.h)) [
  | inl inside ↦ ground (arith, text_from-put_each x y text attr fb inside)
  | inr outside ↦ ground (arith, put_each-outside x y text attr fb outside)
]
