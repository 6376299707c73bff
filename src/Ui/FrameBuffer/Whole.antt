-- ===== src/Ui/FrameBuffer/Whole.antt =====
-- That drawing stays inside the grid: it changes cells and nothing else, and never their number.
use cheburnet.Base.{
  ℕ, zero, suc, ◌+◌, ◌-◌, ◌*◌, ◌≡◌, ◌<◌, refl, sym, ◌∙◌, ap, Bool, true, false, not, ◌&&◌, ◌||◌,
  List, [], ◌∷◌, Bytes, length, is_empty, ltb, arith, if◌then◌else◌, ◌==◌,
}
use cheburnet.Base.Integers.{ℤ, pos, negsuc, next, right_of}
use cheburnet.Ui.FrameBuffer.{
  Cell, FrameBuffer, blank, replicate, at_least_one, resize, fill_all, clear, set_cell, set_at,
  in_bounds, put_ch, in_row, beyond, text_from, put_text, h_line, fill_rect, Glyphs, box_edges,
  box_sides, box, index,
}

-- Both grids have the cells of a window of width `w` and height `h`.
pub record IsWhole (fb : FrameBuffer) : Type 0 where
  pub cells : length fb.cells ≡ fb.w * fb.h
  pub prev : length fb.prev ≡ fb.w * fb.h

-- The second one differs from the first in what its cells hold.
pub record IsDrawn (a b : FrameBuffer) : Type 0 where
  pub same_w : b.w ≡ a.w
  pub same_h : b.h ≡ a.h
  pub same_prev : b.prev ≡ a.prev
  pub same_valid : b.prev_valid ≡ a.prev_valid
  pub same_number : length b.cells ≡ length a.cells

IsDrawn-refl : (fb : FrameBuffer) → IsDrawn fb fb
IsDrawn-refl fb = record {
  same_w = refl;
  same_h = refl;
  same_prev = refl;
  same_valid = refl;
  same_number = refl;
}

IsDrawn-trans : {a b c : FrameBuffer} → IsDrawn a b → IsDrawn b c → IsDrawn a c
IsDrawn-trans p q = record {
  same_w = q.same_w ∙ p.same_w;
  same_h = q.same_h ∙ p.same_h;
  same_prev = q.same_prev ∙ p.same_prev;
  same_valid = q.same_valid ∙ p.same_valid;
  same_number = q.same_number ∙ p.same_number;
}

IsDrawn-IsWhole : {a b : FrameBuffer} → IsDrawn a b → IsWhole a → IsWhole b
IsDrawn-IsWhole {a = a} {b = b} d i =
    let size : b.w * b.h ≡ a.w * a.h = cc (d.same_w, d.same_h) in
    record {
      cells = d.same_number ∙ i.cells ∙ sym size;
      prev = ap length d.same_prev ∙ i.prev ∙ sym size;
    }

row_lt : (y h w x : ℕ) → y < h → x < w → y * w + x < w * h
row_lt y zero w x p q = absurd (omega (arith, p))
row_lt zero (suc h) w x p q = omega (arith, q)
row_lt (suc y) (suc h) w x p q = let r = row_lt y h w x (omega (arith, p)) q in omega (arith, r)

-- A cell inside the window is one of the cells.
pub index_lt :
    (fb : FrameBuffer) (x y : ℕ)
    → IsWhole fb
    → in_bounds fb (pos x) (pos y) ≡ true
    → index fb x y < length fb.cells
index_lt fb x y i h =
    let inside = row_lt y fb.h fb.w x (ground arith) (ground arith) in
    omega (arith, inside, i.cells)

length-set_cell :
    (i : ℕ) (c : Cell) (cells : List Cell) → length (set_cell i c cells) ≡ length cells
length-set_cell i c [] = refl
length-set_cell zero c (d ∷ cells) = refl
length-set_cell (suc i) c (d ∷ cells) = ap suc (length-set_cell i c cells)

length-fill_all : (c : Cell) (cells : List Cell) → length (fill_all c cells) ≡ length cells
length-fill_all c [] = refl
length-fill_all c (d ∷ cells) = ap suc (length-fill_all c cells)

length-replicate : (n : ℕ) (c : Cell) → length (replicate n c) ≡ n
length-replicate zero c = refl
length-replicate (suc n) c = ap suc (length-replicate n c)

set_at-IsDrawn : (x y : ℤ) (c : Cell) (fb : FrameBuffer) → IsDrawn fb (set_at x y c fb)
set_at-IsDrawn (pos x) (pos y) c fb = record {
  same_w = refl;
  same_h = refl;
  same_prev = refl;
  same_valid = refl;
  same_number = length-set_cell (index fb x y) c fb.cells;
}
set_at-IsDrawn (pos x) (negsuc y) c fb = IsDrawn-refl fb
set_at-IsDrawn (negsuc x) y c fb = IsDrawn-refl fb

if-IsDrawn :
    (b : Bool) {a x y : FrameBuffer} → IsDrawn a x → IsDrawn a y → IsDrawn a (if b then x else y)
if-IsDrawn true p q = p
if-IsDrawn false p q = q

if-IsWhole : (b : Bool) {x y : FrameBuffer} → IsWhole x → IsWhole y → IsWhole (if b then x else y)
if-IsWhole true p q = p
if-IsWhole false p q = q

pub put_ch-IsDrawn : (x y : ℤ) (ch attr : ℕ) (fb : FrameBuffer) → IsDrawn fb (put_ch x y ch attr fb)
unfolding put_ch
put_ch-IsDrawn x y ch attr fb =
    if-IsDrawn (in_bounds fb x y) (set_at-IsDrawn x y _ fb) (IsDrawn-refl fb)

text_from-IsDrawn :
    (cx y : ℤ) (text : Bytes) (attr : ℕ) (fb : FrameBuffer)
    → IsDrawn fb (text_from cx y text attr fb)
unfolding text_from
text_from-IsDrawn cx y [] attr fb = IsDrawn-refl fb
text_from-IsDrawn cx y (ch ∷ text) attr fb =
    let cell : Cell = record { char = ch; attributes = attr } in
    let put = if in_row cx fb.w then set_at cx y cell fb else fb in
    let drawn : IsDrawn fb put =
      if-IsDrawn (in_row cx fb.w) (set_at-IsDrawn cx y cell fb) (IsDrawn-refl fb) in
    let later = IsDrawn-trans drawn (text_from-IsDrawn (next cx) y text attr put) in
    if-IsDrawn (ch == b'\n') (IsDrawn-refl fb) (if-IsDrawn (beyond (next cx) fb.w) drawn later)

put_text-IsDrawn :
    (x y : ℤ) (text : Bytes) (attr : ℕ) (fb : FrameBuffer) → IsDrawn fb (put_text x y text attr fb)
unfolding put_text
put_text-IsDrawn x y text attr fb =
    if-IsDrawn (in_row y fb.h) (text_from-IsDrawn x y text attr fb) (IsDrawn-refl fb)

h_line-IsDrawn : (x y : ℤ) (n ch attr : ℕ) (fb : FrameBuffer) → IsDrawn fb (h_line x y n ch attr fb)
unfolding h_line
h_line-IsDrawn x y zero ch attr fb = IsDrawn-refl fb
h_line-IsDrawn x y (suc n) ch attr fb =
    IsDrawn-trans (put_ch-IsDrawn x y ch attr fb)
      (h_line-IsDrawn (next x) y n ch attr (put_ch x y ch attr fb))

fill_rect-IsDrawn :
    (x y : ℤ) (w h ch attr : ℕ) (fb : FrameBuffer) → IsDrawn fb (fill_rect x y w h ch attr fb)
unfolding fill_rect
fill_rect-IsDrawn x y w zero ch attr fb = IsDrawn-refl fb
fill_rect-IsDrawn x y w (suc h) ch attr fb =
    IsDrawn-trans (h_line-IsDrawn x y w ch attr fb)
      (fill_rect-IsDrawn x (next y) w h ch attr (h_line x y w ch attr fb))

-- Two cells, one after the other.
two-IsDrawn :
    (x y x₁ y₁ : ℤ) (ch ch₁ attr : ℕ) (fb : FrameBuffer)
    → IsDrawn fb (put_ch x₁ y₁ ch₁ attr (put_ch x y ch attr fb))
two-IsDrawn x y x₁ y₁ ch ch₁ attr fb =
    IsDrawn-trans (put_ch-IsDrawn x y ch attr fb)
      (put_ch-IsDrawn x₁ y₁ ch₁ attr (put_ch x y ch attr fb))

box_edges-IsDrawn :
    (x top bottom : ℤ) (n ch attr : ℕ) (fb : FrameBuffer)
    → IsDrawn fb (box_edges x top bottom n ch attr fb)
unfolding box_edges
box_edges-IsDrawn x top bottom zero ch attr fb = IsDrawn-refl fb
box_edges-IsDrawn x top bottom (suc n) ch attr fb =
    IsDrawn-trans (two-IsDrawn x top x bottom ch ch attr fb) (
      box_edges-IsDrawn (next x) top bottom n ch attr
        (put_ch x bottom ch attr (put_ch x top ch attr fb)))

box_sides-IsDrawn :
    (left right y : ℤ) (n ch attr : ℕ) (fb : FrameBuffer)
    → IsDrawn fb (box_sides left right y n ch attr fb)
unfolding box_sides
box_sides-IsDrawn left right y zero ch attr fb = IsDrawn-refl fb
box_sides-IsDrawn left right y (suc n) ch attr fb =
    IsDrawn-trans (two-IsDrawn left y right y ch ch attr fb) (
      box_sides-IsDrawn left right (next y) n ch attr
        (put_ch right y ch attr (put_ch left y ch attr fb)))

box-IsDrawn :
    (x y : ℤ) (w h attr : ℕ) (g : Glyphs) (title : Bytes) (title_attr : ℕ) (fb : FrameBuffer)
    → IsDrawn fb (box x y w h attr g title title_attr fb)
unfolding box
box-IsDrawn x y w h attr g title title_attr fb =
    let right = right_of x (w - 1) in
    let bottom = right_of y (h - 1) in
    let top_corners = put_ch right y g.tr attr (put_ch x y g.tl attr fb) in
    let corners = put_ch right bottom g.br attr (put_ch x bottom g.bl attr top_corners) in
    let edges = box_edges (next x) y bottom (w - 2) g.horizontal attr corners in
    let sides = box_sides x right (next y) (h - 2) g.vertical attr edges in
    let to_top : IsDrawn fb top_corners = two-IsDrawn x y right y g.tl g.tr attr fb in
    let to_corners : IsDrawn fb corners =
      IsDrawn-trans to_top (two-IsDrawn x bottom right bottom g.bl g.br attr top_corners) in
    let to_edges : IsDrawn fb edges =
      IsDrawn-trans to_corners
        (box_edges-IsDrawn (next x) y bottom (w - 2) g.horizontal attr corners) in
    let to_sides : IsDrawn fb sides =
      IsDrawn-trans to_edges (box_sides-IsDrawn x right (next y) (h - 2) g.vertical attr edges) in
    if-IsDrawn (ltb w 2 || ltb h 2) (IsDrawn-refl fb) (
      if-IsDrawn (not (is_empty title) && ltb 6 w)
        (IsDrawn-trans to_sides (put_text-IsDrawn (right_of x 2) y _ _ sides)) to_sides)

-- The calls that a screen makes.
pub data Drawing : Type 0 where
  resize_to : ℤ → ℤ → Drawing
  clear_to : ℕ → Drawing
  put_one : ℤ → ℤ → ℕ → ℕ → Drawing
  put_line : ℤ → ℤ → Bytes → ℕ → Drawing
  draw_line : ℤ → ℤ → ℕ → ℕ → ℕ → Drawing
  fill : ℤ → ℤ → ℕ → ℕ → ℕ → ℕ → Drawing
  draw_box : ℤ → ℤ → ℕ → ℕ → ℕ → Glyphs → Bytes → ℕ → Drawing

abbrev pub draw : Drawing → FrameBuffer → FrameBuffer
draw (resize_to w h) = resize w h
draw (clear_to attr) = clear attr
draw (put_one x y ch attr) = put_ch x y ch attr
draw (put_line x y text attr) = put_text x y text attr
draw (draw_line x y n ch attr) = h_line x y n ch attr
draw (fill x y w h ch attr) = fill_rect x y w h ch attr
draw (draw_box x y w h attr g title title_attr) = box x y w h attr g title title_attr

resize-IsWhole : (w h : ℤ) (fb : FrameBuffer) → IsWhole fb → IsWhole (resize w h fb)
unfolding resize
resize-IsWhole w h fb i =
    let n = at_least_one w * at_least_one h in
    if-IsWhole (at_least_one w == fb.w && at_least_one h == fb.h) i
      (record { cells = length-replicate n blank; prev = length-replicate n blank })

clear-IsWhole : (attr : ℕ) (fb : FrameBuffer) → IsWhole fb → IsWhole (clear attr fb)
unfolding clear
clear-IsWhole attr fb i = record { cells = length-fill_all _ fb.cells ∙ i.cells; prev = i.prev }

-- Every drawing call leaves both grids with as many cells as the window has, wherever and however far
-- outside the window it draws.
pub draw-IsWhole : (d : Drawing) (fb : FrameBuffer) → IsWhole fb → IsWhole (draw d fb)
draw-IsWhole (resize_to w h) fb i = resize-IsWhole w h fb i
draw-IsWhole (clear_to attr) fb i = clear-IsWhole attr fb i
draw-IsWhole (put_one x y ch attr) fb i = IsDrawn-IsWhole (put_ch-IsDrawn x y ch attr fb) i
draw-IsWhole (put_line x y text attr) fb i = IsDrawn-IsWhole (put_text-IsDrawn x y text attr fb) i
draw-IsWhole (draw_line x y n ch attr) fb i = IsDrawn-IsWhole (h_line-IsDrawn x y n ch attr fb) i
draw-IsWhole (fill x y w h ch attr) fb i = IsDrawn-IsWhole (fill_rect-IsDrawn x y w h ch attr fb) i
draw-IsWhole (draw_box x y w h attr g title title_attr) fb i =
    IsDrawn-IsWhole (box-IsDrawn x y w h attr g title title_attr fb) i
