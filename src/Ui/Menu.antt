-- ===== src/Ui/Menu.antt =====
-- The menu of ui/Widgets.cpp: which item is selected. Its drawing is not modelled.
pub mod Selected
use cheburnet.Base.{
  ℕ, zero, suc, ◌+◌, ◌-◌, ◌%◌, Bool, true, false, not, ◌&&◌, ◌||◌, Option, none, some, List, [],
  ◌∷◌, Bytes, length, is_empty, get_elem?, ltb, leb, ◌==◌, within, if◌then◌else◌,
}
use cheburnet.Base.Integers.{ℤ, pos, negsuc}

pub record MenuItem : Type 0 where
  pub label : Bytes
  pub description : Bytes
  pub enabled : Bool
  pub hotkey : ℕ

pub record Menu : Type 0 where
  pub items : List MenuItem
  pub sel : ℕ

abbrev pub new_menu : Menu
new_menu = record { items = []; sel = 0 }

abbrev pub is_enabled : Option MenuItem → Bool
is_enabled none = false
is_enabled (some item) = item.enabled

-- `items_[i].enabled`
abbrev pub enabled_at : List MenuItem → ℕ → Bool
enabled_at items i = is_enabled (get_elem? items i)

-- The first item that passes a test, counted from `i`.
unfoldable pub first_from : (MenuItem → Bool) → ℕ → List MenuItem → Option ℕ
first_from test i [] = none
first_from test i (item ∷ items) =
    let rest = first_from test (suc i) items in if test item then some i else rest

abbrev pub or_zero : Option ℕ → ℕ
or_zero none = 0
or_zero (some i) = i

unfoldable pub set_items : List MenuItem → Menu
set_items items = record {
  items = items;
  sel = or_zero (first_from (λ item. item.enabled) 0 items);
}

-- The loops of `MoveUp` and `MoveDown`: `place step` is the index that a step looks at, and the loop
-- has `left` steps to go.
unfoldable pub search_from : (ℕ → ℕ) → List MenuItem → ℕ → ℕ → ℕ → ℕ
search_from place items sel step zero = sel
search_from place items sel step (suc left) =
    let rest = search_from place items sel (suc step) left in
    if enabled_at items (place step) then place step else rest

-- `(sel_ - step % n + n) % n`, in an order in which no difference is below 0.
abbrev pub place_up : ℕ → ℕ → ℕ → ℕ
place_up n sel step = (sel + n - step % n) % n

abbrev pub place_down : ℕ → ℕ → ℕ → ℕ
place_down n sel step = (sel + step) % n

unfoldable pub move_up : Menu → Menu
move_up m =
    let n = length m.items in
    if is_empty m.items
    then m
    else record m { sel = search_from (place_up n m.sel) m.items m.sel 1 n }

unfoldable pub move_down : Menu → Menu
move_down m =
    let n = length m.items in
    if is_empty m.items
    then m
    else record m { sel = search_from (place_down n m.sel) m.items m.sel 1 n }

-- `ch | 0x20` for a capital letter.
abbrev pub lower_key : ℕ → ℕ
lower_key ch = if within b'A' b'Z' ch then ch + 32 else ch

-- `IndexForHotkey`, with nothing for -1.
unfoldable pub index_for_hotkey : ℕ → Menu → Option ℕ
index_for_hotkey ch m = first_from (λ item. item.enabled && item.hotkey == lower_key ch) 0 m.items

abbrev pub select_found : Menu → Option ℕ → Menu
select_found m none = m
select_found m (some i) = record m { sel = i }

unfoldable pub select_hotkey : ℕ → Menu → Menu
select_hotkey ch m = select_found m (index_for_hotkey ch m)

-- An index brought into the range of the items.
abbrev pub clamp : ℤ → ℕ → ℕ
clamp (negsuc i) n = 0
clamp (pos i) n = if leb n i then n - 1 else i

-- Another item, if the selected one is disabled.
abbrev pub unless_enabled : (Menu → Menu) → Menu → Menu
unless_enabled move m = if enabled_at m.items m.sel then m else move m

abbrev pub skip_disabled : Menu → Menu
skip_disabled m = if enabled_at m.items m.sel then m else unless_enabled move_up (move_down m)

unfoldable pub set_selected : ℤ → Menu → Menu
set_selected i m =
    if is_empty m.items then m else skip_disabled (record m { sel = clamp i (length m.items) })
