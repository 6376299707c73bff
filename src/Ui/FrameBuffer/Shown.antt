-- ===== src/Ui/FrameBuffer/Shown.antt =====
-- `Present` against what it is for: afterwards the console shows the grid. It writes the rows that
-- changed only, and remembers the grid that it showed.
use cheburnet.Base.{
  ℕ, zero, suc, ◌≡◌, ◌≢◌, refl, sym, ◌∙◌, ◌<◌, ◌⊎◌, inl, inr, Bool, true, false, ◌&&◌, List, [],
  ◌∷◌, arith, &&-true, if◌then◌else◌, ◌==◌, ==_iff,
}
use cheburnet.Ui.FrameBuffer.{Cell, FrameBuffer, Console, row_of, same_row, present_from, present}

-- What `WriteConsoleOutputW` does with one row: it stands in its place, and the others stay.
pub record IsConsole {C : Type 0} (console : Console C) : Type 0 where
  pub same : (y : ℕ) (r : List Cell) (c : C) → console.row (console.write y r c) y ≡ r
  pub other :
      (y z : ℕ) (r : List Cell) (c : C)
      → y ≢ z
      → console.row (console.write y r c) z ≡ console.row c z

cell-eq : (c d : Cell) → (c.char == d.char && c.attributes == d.attributes) ≡ true → c ≡ d
cell-eq c d h = ground (arith, ==_iff c.char d.char, ==_iff c.attributes d.attributes)

same_row-eq : (a b : List Cell) → same_row a b ≡ true → a ≡ b
unfolding same_row
same_row-eq [] [] h = refl
same_row-eq [] (d ∷ b) h = absurd (ground arith)
same_row-eq (c ∷ a) [] h = absurd (ground arith)
same_row-eq (c ∷ a) (d ∷ b) h =
    let heads = cell-eq c d (ground arith) in
    let tails = same_row-eq a b (ground arith) in cc (heads, tails)

same_row_refl : (a : List Cell) → same_row a a ≡ true
unfolding same_row
same_row_refl [] = refl
same_row_refl (c ∷ a) = ground (arith, same_row_refl a)

module _ {C : Type 0} (console : Console C) where
  -- The console shows the rows of the grid from `y` on, `n` of them.
  abbrev pub Shows : C → ℕ → List Cell → ℕ → ℕ → Type 0
  Shows c w cells y zero = Unit
  Shows c w cells y (suc n) = (console.row c y ≡ row_of w y cells) × Shows c w cells (suc y) n

  module _ (law : IsConsole console) where
    -- A write above them leaves the rows that are shown.
    write-Shows :
        (c : C) (w : ℕ) (cells : List Cell) (z : ℕ) (r : List Cell) (y n : ℕ)
        → z < y
        → Shows c w cells y n
        → Shows (console.write z r c) w cells y n
    write-Shows c w cells z r y zero h s = tt
    write-Shows c w cells z r y (suc n) h s = (
      law.other z y r c (λ e. absurd (omega (arith, e, h))) ∙ s.0,
      write-Shows c w cells z r (suc y) n (omega (arith, h)) s.1,
    )

    row-if :
        (b : Bool) (z : ℕ) (p q : ℕ × C) {r : List Cell}
        → console.row p.1 z ≡ r
        → console.row q.1 z ≡ r
        → console.row (if b then p else (suc q.0, q.1)).1 z ≡ r
    row-if true z p q h k = h
    row-if false z p q h k = k

    Shows-if :
        (b : Bool) (w : ℕ) (cells : List Cell) (y n : ℕ) (p q : ℕ × C)
        → (b ≡ true → Shows p.1 w cells y (suc n))
        → Shows q.1 w cells y (suc n)
        → Shows (if b then p else (suc q.0, q.1)).1 w cells y (suc n)
    Shows-if true w cells y n p q f s = f refl
    Shows-if false w cells y n p q f s = s

    -- Nothing is written while the grid is the one that was shown.
    present_from-again :
        (fb : FrameBuffer) (y n : ℕ) (c : C)
        → present_from console (record fb { prev = fb.cells; prev_valid = true }) y n c ≡ (0, c)
    unfolding present_from
    present_from-again fb y zero c = refl
    present_from-again fb y (suc n) c =
        ground (arith, same_row_refl (row_of fb.w y fb.cells), present_from-again fb (suc y) n c)

    present_from-above :
        (fb : FrameBuffer) (y n z : ℕ) (c : C)
        → z < y
        → console.row (present_from console fb y n c).1 z ≡ console.row c z
    unfolding present_from
    present_from-above fb y zero z c h = refl
    present_from-above fb y (suc n) z c h =
        let now = row_of fb.w y fb.cells in
        let skipped = present_from-above fb (suc y) n z c (omega (arith, h)) in
        let written =
          present_from-above fb (suc y) n z (console.write y now c) (omega (arith, h))
          ∙ law.other y z now c (λ e. absurd (omega (arith, e, h))) in
        row-if (fb.prev_valid && same_row now (row_of fb.w y fb.prev)) z
          (present_from console fb (suc y) n c)
          (present_from console fb (suc y) n (console.write y now c)) skipped written

    -- What the console was known to show.
    abbrev pub Known : FrameBuffer → C → ℕ → ℕ → Type 0
    Known fb c y n = (fb.prev_valid ≡ false) ⊎ Shows c fb.w fb.prev y n

    Known-later : (fb : FrameBuffer) (c : C) (y n : ℕ) → Known fb c y (suc n) → Known fb c (suc y) n
    Known-later fb c y n (inl e) = inl e
    Known-later fb c y n (inr s) = inr s.1

    Known-write :
        (fb : FrameBuffer) (c : C) (y n : ℕ) (r : List Cell)
        → Known fb c (suc y) n
        → Known fb (console.write y r c) (suc y) n
    Known-write fb c y n r (inl e) = inl e
    Known-write fb c y n r (inr s) = inr (write-Shows c fb.w fb.prev y r (suc y) n (omega arith) s)

    -- A row that is skipped stands there already.
    Known-row :
        (fb : FrameBuffer) (c : C) (y n : ℕ)
        → Known fb c y (suc n)
        → (fb.prev_valid && same_row (row_of fb.w y fb.cells) (row_of fb.w y fb.prev)) ≡ true
        → console.row c y ≡ row_of fb.w y fb.cells
    Known-row fb c y n (inl e) h = absurd (ground arith)
    Known-row fb c y n (inr s) h =
        s.0
        ∙ sym (
            same_row-eq (row_of fb.w y fb.cells) (row_of fb.w y fb.prev)
              (&&-true fb.prev_valid (same_row (row_of fb.w y fb.cells) (row_of fb.w y fb.prev))
                h).1)

    present_from-Shows :
        (fb : FrameBuffer) (y n : ℕ) (c : C)
        → Known fb c y n
        → Shows (present_from console fb y n c).1 fb.w fb.cells y n
    unfolding present_from
    present_from-Shows fb y zero c k = tt
    present_from-Shows fb y (suc n) c k =
        let now = row_of fb.w y fb.cells in
        let b = fb.prev_valid && same_row now (row_of fb.w y fb.prev) in
        let later = Known-later fb c y n k in
        let skipped = present_from-Shows fb (suc y) n c later in
        let c₁ = console.write y now c in
        let written = present_from-Shows fb (suc y) n c₁ (Known-write fb c y n now later) in
        Shows-if b fb.w fb.cells y n (present_from console fb (suc y) n c)
          (present_from console fb (suc y) n c₁)
          (λ e.
            (present_from-above fb (suc y) n y c (omega arith) ∙ Known-row fb c y n k e, skipped))
          (present_from-above fb (suc y) n y c₁ (omega arith) ∙ law.same y now c, written)

    -- `Present`, to a console that shows what it showed the last time, or whatever it shows if the grid
    -- was resized or declared invalid since: afterwards the console shows the grid, row for row; and a
    -- second `Present` right behind it writes nothing.
    pub present-Shows :
        (fb : FrameBuffer) (c : C)
        → Known fb c 0 fb.h
        → let ((n, c₁), fb₁) = present console fb c in
          Shows c₁ fb.w fb.cells 0 fb.h × ((present console fb₁ c₁).0 ≡ (0, c₁))
    unfolding present
    present-Shows fb c k = (
      present_from-Shows fb 0 fb.h c k,
      present_from-again fb 0 fb.h (present_from console fb 0 fb.h c).1,
    )
