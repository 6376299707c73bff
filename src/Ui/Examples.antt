-- ===== src/Ui/Examples.antt =====
-- Runs of the interface's parts.
use cheburnet.Base.{
  ℕ, ◌≡◌, refl, inl, true, false, List, [], ◌∷◌, codes, arith, ◌==◌, ==_iff, if◌then◌else◌,
}
use cheburnet.Base.Integers.{pos, negsuc}
use cheburnet.Ui.FrameBuffer.{Cell, FrameBuffer, blank, Console, put_text, text_from, present}
use cheburnet.Ui.FrameBuffer.Whole.{IsWhole}
use cheburnet.Ui.FrameBuffer.Text.{put_each, put_text-put_each}
use cheburnet.Ui.FrameBuffer.Shown.{IsConsole, Shows, present-Shows}
use cheburnet.Ui.Menu.{MenuItem, Menu}
use cheburnet.Ui.Menu.Selected.{IsSelecting, act, choose, act-IsSelecting}

-- A window of two columns and two rows.
abbrev window : FrameBuffer
window = record {
  w = 2;
  h = 2;
  cells = blank ∷ blank ∷ blank ∷ blank ∷ [];
  prev = blank ∷ blank ∷ blank ∷ blank ∷ [];
  prev_valid = false;
}

-- A text that starts left of the window, and has more than a line.
text_drawn :
    (put_text (negsuc 0) (pos 1) (codes "abc\nd") 7 window).cells
    ≡ blank
      ∷ blank
      ∷ record { char = b'b'; attributes = 7 }
      ∷ record { char = b'c'; attributes = 7 }
      ∷ []
unfolding put_text text_from
text_drawn = refl

window-IsWhole : IsWhole window
window-IsWhole = record { cells = refl; prev = refl }

put_text-put_each_example :
    put_text (negsuc 0) (pos 1) (codes "abc") 7 window
    ≡ put_each (negsuc 0) (pos 1) (codes "abc") 7 window
put_text-put_each_example = put_text-put_each (negsuc 0) (pos 1) (codes "abc") 7 window

-- A console that keeps its rows as a function.
abbrev screen : Console (ℕ → List Cell)
screen = record { row = λ c y. c y; write = λ y r c z. if y == z then r else c z }

screen-IsConsole : IsConsole screen
screen-IsConsole = record {
  same = λ y r c. ground arith;
  other = λ y z r c n. ground (arith, ==_iff y z, n);
}

abbrev empty_screen : ℕ → List Cell
empty_screen y = []

present-Shows_example :
    let ((n, c), fb) = present screen window empty_screen in
    Shows screen c 2 window.cells 0 2 × ((present screen fb c).0 ≡ (0, c))
present-Shows_example = present-Shows screen screen-IsConsole window empty_screen (inl refl)

abbrev two_items : List MenuItem
two_items =
    record { label = []; description = []; enabled = false; hotkey = 0 }
    ∷ record { label = []; description = []; enabled = true; hotkey = b'a' }
    ∷ []

abbrev menu : Menu
menu = record { items = two_items; sel = 1 }

act-IsSelecting_example : IsSelecting (act (choose (pos 0)) menu)
act-IsSelecting_example = act-IsSelecting (choose (pos 0)) menu (inl refl)
