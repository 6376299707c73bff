-- ===== src/Ui/FrameBuffer.antt =====
-- ui/FrameBuffer.cpp: the grid of cells that the screens draw into. Coordinates are integers; that an
-- `int` wraps around is left out, since no window is that large.
pub mod Whole
pub mod Text
pub mod Shown
use cheburnet.Base.{
  ℕ, zero, suc, ◌+◌, ◌-◌, ◌*◌, Bool, true, false, not, ◌&&◌, ◌||◌, Option, none, some, List, [],
  ◌∷◌, ◌++◌, Bytes, length, is_empty, ltb, leb, ◌==◌, take, drop, if◌then◌else◌,
}
use cheburnet.Base.Integers.{ℤ, pos, negsuc, next, right_of}

-- `CHAR_INFO`
pub record Cell : Type 0 where
  pub char : ℕ
  pub attributes : ℕ

pub record FrameBuffer : Type 0 where
  pub w : ℕ
  pub h : ℕ
  pub cells : List Cell
  pub prev : List Cell
  pub prev_valid : Bool

abbrev pub new_frame_buffer : FrameBuffer
new_frame_buffer = record { w = 0; h = 0; cells = []; prev = []; prev_valid = false }

abbrev pub blank : Cell
blank = record { char = 0; attributes = 0 }

-- `assign(n, CHAR_INFO{})`
abbrev pub replicate {ℓ} : {A : Type ℓ} → ℕ → A → List A
replicate zero a = []
replicate (suc n) a = a ∷ replicate n a

abbrev pub at_least_one : ℤ → ℕ
at_least_one (pos zero) = 1
at_least_one (pos (suc n)) = suc n
at_least_one (negsuc n) = 1

unfoldable pub resize : ℤ → ℤ → FrameBuffer → FrameBuffer
resize width height fb =
    let w = at_least_one width in
    let h = at_least_one height in
    if w == fb.w && h == fb.h then fb else record {
      w = w;
      h = h;
      cells = replicate (w * h) blank;
      prev = replicate (w * h) blank;
      prev_valid = false;
    }

abbrev pub fill_all : Cell → List Cell → List Cell
fill_all c [] = []
fill_all c (d ∷ cells) = c ∷ fill_all c cells

unfoldable pub clear : ℕ → FrameBuffer → FrameBuffer
clear attr fb = record fb { cells = fill_all (record { char = b' '; attributes = attr }) fb.cells }

-- `cells_[i] = c`
abbrev pub set_cell {ℓ} : {A : Type ℓ} → ℕ → A → List A → List A
set_cell i c [] = []
set_cell zero c (d ∷ cells) = c ∷ cells
set_cell (suc i) c (d ∷ cells) = d ∷ set_cell i c cells

abbrev pub index : FrameBuffer → ℕ → ℕ → ℕ
index fb x y = y * fb.w + x

-- `InBounds`
abbrev pub in_bounds : FrameBuffer → ℤ → ℤ → Bool
in_bounds fb (pos x) (pos y) = ltb x fb.w && ltb y fb.h
in_bounds fb _ _ = false

abbrev pub set_at : ℤ → ℤ → Cell → FrameBuffer → FrameBuffer
set_at (pos x) (pos y) c fb = record fb { cells = set_cell (index fb x y) c fb.cells }
set_at _ _ c fb = fb

unfoldable pub put_ch : ℤ → ℤ → ℕ → ℕ → FrameBuffer → FrameBuffer
put_ch x y ch attr fb =
    if in_bounds fb x y then set_at x y (record { char = ch; attributes = attr }) fb else fb

-- `cx >= w_`
abbrev pub beyond : ℤ → ℕ → Bool
beyond (pos x) w = leb w x
beyond (negsuc x) w = false

abbrev pub in_row : ℤ → ℕ → Bool
in_row (pos x) w = ltb x w
in_row (negsuc x) w = false

-- The loop of `PutText`, in the row `y`.
unfoldable pub text_from : ℤ → ℤ → Bytes → ℕ → FrameBuffer → FrameBuffer
text_from cx y [] attr fb = fb
text_from cx y (ch ∷ text) attr fb =
    let put =
      if in_row cx fb.w then set_at cx y (record { char = ch; attributes = attr }) fb else fb in
    let rest = text_from (next cx) y text attr put in
    if ch == b'\n' then fb else if beyond (next cx) fb.w then put else rest

unfoldable pub put_text : ℤ → ℤ → Bytes → ℕ → FrameBuffer → FrameBuffer
put_text x y text attr fb = if in_row y fb.h then text_from x y text attr fb else fb

-- The loop of `HLine`, from the left; and of `FillRect`, row by row.
unfoldable pub h_line : ℤ → ℤ → ℕ → ℕ → ℕ → FrameBuffer → FrameBuffer
h_line x y zero ch attr fb = fb
h_line x y (suc len) ch attr fb = h_line (next x) y len ch attr (put_ch x y ch attr fb)

unfoldable pub fill_rect : ℤ → ℤ → ℕ → ℕ → ℕ → ℕ → FrameBuffer → FrameBuffer
fill_rect x y w zero ch attr fb = fb
fill_rect x y w (suc h) ch attr fb = fill_rect x (next y) w h ch attr (h_line x y w ch attr fb)

pub record Glyphs : Type 0 where
  pub tl : ℕ
  pub tr : ℕ
  pub bl : ℕ
  pub br : ℕ
  pub horizontal : ℕ
  pub vertical : ℕ

-- The two loops of `Box`: the upper and the lower edge, and the sides.
unfoldable pub box_edges : ℤ → ℤ → ℤ → ℕ → ℕ → ℕ → FrameBuffer → FrameBuffer
box_edges x top bottom zero ch attr fb = fb
box_edges x top bottom (suc n) ch attr fb =
    box_edges (next x) top bottom n ch attr (put_ch x bottom ch attr (put_ch x top ch attr fb))

unfoldable pub box_sides : ℤ → ℤ → ℤ → ℕ → ℕ → ℕ → FrameBuffer → FrameBuffer
box_sides left right y zero ch attr fb = fb
box_sides left right y (suc n) ch attr fb =
    box_sides left right (next y) n ch attr (put_ch right y ch attr (put_ch left y ch attr fb))

abbrev pub box_title : ℤ → ℤ → ℕ → Bytes → ℕ → ℕ → FrameBuffer → FrameBuffer
box_title x y w title title_attr attr fb =
    if not (is_empty title) && ltb 6 w
    then put_text (right_of x 2) y (b' ' ∷ (take (w - 6) title ++ (b' ' ∷ [])))
        (if title_attr == 0 then attr else title_attr) fb
    else fb

-- `Box` of a width and a height that are not negative.
unfoldable pub box : ℤ → ℤ → ℕ → ℕ → ℕ → Glyphs → Bytes → ℕ → FrameBuffer → FrameBuffer
box x y w h attr g title title_attr fb =
    let right = right_of x (w - 1) in
    let bottom = right_of y (h - 1) in
    let corners =
      put_ch right bottom g.br attr
        (put_ch x bottom g.bl attr (put_ch right y g.tr attr (put_ch x y g.tl attr fb))) in
    let edges = box_edges (next x) y bottom (w - 2) g.horizontal attr corners in
    let sides = box_sides x right (next y) (h - 2) g.vertical attr edges in
    if ltb w 2 || ltb h 2 then fb else box_title x y w title title_attr attr sides

-- A row of a grid of the given width.
abbrev pub row_of : ℕ → ℕ → List Cell → List Cell
row_of w y cells = take w (drop (y * w) cells)

-- `memcmp` of two rows.
unfoldable pub same_row : List Cell → List Cell → Bool
same_row [] [] = true
same_row (c ∷ a) (d ∷ b) = (c.char == d.char && c.attributes == d.attributes) && same_row a b
same_row _ _ = false

-- The console: the row that it shows, and `WriteConsoleOutputW` of one row.
pub record Console (C : Type 0) : Type 0 where
  pub row : C → ℕ → List Cell
  pub write : ℕ → List Cell → C → C

module _ {C : Type 0} (console : Console C) where
  -- The loop of `Present` over the rows from `y` on, with the number of rows written.
  unfoldable pub present_from : FrameBuffer → ℕ → ℕ → C → ℕ × C
  present_from fb y zero out = (0, out)
  present_from fb y (suc n) out =
      let now = row_of fb.w y fb.cells in
      let skipped = present_from fb (suc y) n out in
      let written = present_from fb (suc y) n (console.write y now out) in
      if fb.prev_valid && same_row now (row_of fb.w y fb.prev)
      then skipped
      else (suc written.0, written.1)

  -- `Present` to a console that is there.
  unfoldable pub present : FrameBuffer → C → (ℕ × C) × FrameBuffer
  present fb out = (present_from fb 0 fb.h out, record fb { prev = fb.cells; prev_valid = true })

unfoldable pub invalidate : FrameBuffer → FrameBuffer
invalidate fb = record fb { prev_valid = false }
