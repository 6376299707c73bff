-- ===== src/Ui/Menu/Selected.antt =====
-- That the selected item can be chosen, whatever was pressed and however the menu was rebuilt.
use native.Mathlib.Nat.{mod-eq_of_lt, add-mod_right}
use cheburnet.Base.{
  if-holds, ℕ, zero, suc, ◌+◌, ◌-◌, ◌%◌, ◌≤◌, ◌<◌, ◌≡◌, refl, sym, ◌∙◌, ap, subst, ◌⊎◌, inl, inr,
  Bool, true, not, ◌&&◌, none, some, List, [], ◌∷◌, length, is_empty, every, get_elem?, ltb, ◌==◌,
  arith, Bool-cases, &&-true, ==_iff, Option-cases, if◌then◌else◌,
}
use cheburnet.Base.Integers.{ℤ, pos, negsuc}
use cheburnet.Ui.Menu.{
  MenuItem, Menu, is_enabled, enabled_at, first_from, set_items, or_zero, search_from, place_down,
  place_up, move_up, move_down, index_for_hotkey, lower_key, select_found, select_hotkey, clamp,
  unless_enabled, skip_disabled, set_selected,
}

abbrev pub none_enabled : List MenuItem → Bool
none_enabled items = every (λ item. not item.enabled) items

-- The selected item is there and enabled, or no item is.
abbrev pub IsSelecting : Menu → Type 0
IsSelecting m = (enabled_at m.items m.sel ≡ true) ⊎ (none_enabled m.items ≡ true)

first_from-some :
    (test : MenuItem → Bool) (i : ℕ) (items : List MenuItem) {j : ℕ}
    → first_from test i items ≡ some j
    → (k : ℕ) × (item : MenuItem) × ((j ≡ i + k)
        × ((get_elem? items k ≡ some item) × (test item ≡ true)))
unfolding first_from
first_from-some test i [] h = absurd (ground arith)
first_from-some test i (item ∷ items) {j = j} h = elim (Bool-cases (test item)) [
  | inl t ↦ (0, item, (ground arith, (refl, t)))
  | inr t ↦
      let (k, found, (e, (g, u))) = first_from-some test (suc i) items {j = j} (ground arith) in
      (suc k, found, (omega (arith, e), (g, u)))
]

first_from-none :
    (test : MenuItem → Bool) (i : ℕ) (items : List MenuItem)
    → first_from test i items ≡ none
    → every (λ item. not (test item)) items ≡ true
unfolding first_from
first_from-none test i [] h = refl
first_from-none test i (item ∷ items) h = elim (Bool-cases (test item)) [
  | inl t ↦ absurd (ground arith)
  | inr t ↦ ground (arith, first_from-none test (suc i) items (ground arith))
]

-- A found index is one of an enabled item, if the test asks for that.
first_from-enabled :
    (test : MenuItem → Bool) (items : List MenuItem) {j : ℕ}
    → ((item : MenuItem) → test item ≡ true → item.enabled ≡ true)
    → first_from test 0 items ≡ some j
    → enabled_at items j ≡ true
first_from-enabled test items {j = j} f h =
    let (k, item, (e, (g, t))) = first_from-some test 0 items {j = j} h in
    let on = f item t in
    let same : j ≡ k = omega (arith, e) in
    let there : get_elem? items j ≡ some item = ap (get_elem? items) same ∙ g in
    ap is_enabled there ∙ on

abbrev IsEnabled : List MenuItem → ℕ → Type 0
IsEnabled items i = enabled_at items i ≡ true

search_from-enabled :
    (place : ℕ → ℕ) (items : List MenuItem) (sel step left : ℕ)
    → enabled_at items sel ≡ true
    → enabled_at items (search_from place items sel step left) ≡ true
unfolding search_from
search_from-enabled place items sel step zero h = h
search_from-enabled place items sel step (suc left) h =
    if-holds (IsEnabled items) (enabled_at items (place step)) (place step)
      (search_from place items sel (suc step) left) (λ e. e)
      (λ e. search_from-enabled place items sel (suc step) left h)

-- A search that comes past an enabled item ends at one.
search_from-finds :
    (place : ℕ → ℕ) (items : List MenuItem) (sel step left t : ℕ)
    → step ≤ t
    → t < step + left
    → enabled_at items (place t) ≡ true
    → enabled_at items (search_from place items sel step left) ≡ true
unfolding search_from
search_from-finds place items sel step zero t lo hi h = absurd (omega (arith, lo, hi))
search_from-finds place items sel step (suc left) t lo hi h =
    let rest = search_from place items sel (suc step) left in
    if-holds (IsEnabled items) (enabled_at items (place step)) (place step) rest (λ e. e)
      (λ n. elim (Bool-cases (step == t)) [
        | inl same ↦
            let here = (==_iff step t).0 same in
            let on = ap (λ u. enabled_at items (place u)) here ∙ h in absurd (ground arith)
        | inr later ↦
            search_from-finds place items sel (suc step) left t (ground arith) (omega (arith, hi)) h
      ])

enabled_at-lt : (items : List MenuItem) (i : ℕ) → enabled_at items i ≡ true → i < length items
enabled_at-lt [] i h = absurd (ground arith)
enabled_at-lt (item ∷ items) zero h = omega arith
enabled_at-lt (item ∷ items) (suc i) h = omega (arith, enabled_at-lt items i h)

is_empty-length : (items : List MenuItem) → is_empty items ≡ true → length items ≡ 0
is_empty-length [] h = refl
is_empty-length (item ∷ items) h = absurd (ground arith)

abbrev pub IsOn : Menu → Type 0
IsOn m = enabled_at m.items m.sel ≡ true

move_down-IsOn : (m : Menu) → IsOn m → IsOn (move_down m)
unfolding move_down
move_down-IsOn m h =
    let n = length m.items in
    if-holds IsOn (is_empty m.items) m
      (record m { sel = search_from (place_down n m.sel) m.items m.sel 1 n }) (λ e. h)
      (λ e. search_from-enabled (place_down n m.sel) m.items m.sel 1 n h)

move_up-IsOn : (m : Menu) → IsOn m → IsOn (move_up m)
unfolding move_up
move_up-IsOn m h =
    let n = length m.items in
    if-holds IsOn (is_empty m.items) m
      (record m { sel = search_from (place_up n m.sel) m.items m.sel 1 n }) (λ e. h)
      (λ e. search_from-enabled (place_up n m.sel) m.items m.sel 1 n h)

-- The step from one index to another, around the end if need be.
abbrev distance : ℕ → ℕ → ℕ → ℕ
distance n i j = if ltb i j then j - i else j + n - i

distance-cases :
    (n i j : ℕ)
    → i < n
    → j < n
    → ((i + distance n i j ≡ j) ⊎ (i + distance n i j ≡ j + n))
      × ((1 ≤ distance n i j) × (distance n i j < suc n))
distance-cases n i j p q = ground arith

distance-place :
    (n i j : ℕ)
    → i < n
    → j < n
    → (place_down n i (distance n i j) ≡ j) × ((1 ≤ distance n i j) × (distance n i j < suc n))
distance-place n i j p q =
    let (whole, bounds) = distance-cases n i j p q in
    (
      elim whole [
        | inl e ↦ ap (λ s. s % n) e ∙ mod-eq_of_lt q
        | inr e ↦ ap (λ s. s % n) e ∙ add-mod_right j n ∙ mod-eq_of_lt q
      ],
      bounds,
    )

-- From any index in the range, the steps downwards come past every enabled item.
move_down-finds :
    (m : Menu) (j : ℕ) → m.sel < length m.items → enabled_at m.items j ≡ true → IsOn (move_down m)
unfolding move_down
move_down-finds m j lo h =
    let n = length m.items in
    let t = distance n m.sel j in
    let (place, (least, most)) = distance-place n m.sel j lo (enabled_at-lt m.items j h) in
    if-holds IsOn (is_empty m.items) m
      (record m { sel = search_from (place_down n m.sel) m.items m.sel 1 n })
      (λ e. absurd (omega (arith, lo, is_empty-length m.items e)))
      (λ e.
        search_from-finds (place_down n m.sel) m.items m.sel 1 n t least (omega (arith, most))
          (ap (enabled_at m.items) place ∙ h))

move_down-items : (m : Menu) → (move_down m).items ≡ m.items
unfolding move_down
move_down-items m = ground arith

move_up-items : (m : Menu) → (move_up m).items ≡ m.items
unfolding move_up
move_up-items m = ground arith

clamp-lt : (i : ℤ) (n : ℕ) → 0 < n → clamp i n < n
clamp-lt (pos i) n h = ground arith
clamp-lt (negsuc i) n h = h

-- Once a menu has an enabled item, `SetSelected` ends at one.
set_selected-IsOn : (i : ℤ) (m : Menu) → IsOn m → IsOn (set_selected i m)
unfolding set_selected
set_selected-IsOn i m h =
    let at : Menu = record m { sel = clamp i (length m.items) } in
    let room = enabled_at-lt m.items m.sel h in
    let found = move_down-finds at m.sel (clamp-lt i (length m.items) (omega (arith, room))) h in
    if-holds IsOn (is_empty m.items) m (skip_disabled at) (λ e. h)
      (λ e.
        if-holds IsOn (enabled_at m.items at.sel) at (unless_enabled move_up (move_down at))
          (λ f. f)
          (λ f.
            if-holds IsOn (enabled_at (move_down at).items (move_down at).sel) (move_down at)
              (move_up (move_down at)) (λ g. found) (λ g. move_up-IsOn (move_down at) found)))

set_selected-items : (i : ℤ) (m : Menu) → (set_selected i m).items ≡ m.items
unfolding set_selected
set_selected-items i m =
    let at : Menu = record m { sel = clamp i (length m.items) } in
    let same : Menu → Type 0 = λ x. x.items ≡ m.items in
    if-holds same (is_empty m.items) m (skip_disabled at) (λ e. refl)
      (λ e.
        if-holds same (enabled_at m.items at.sel) at (unless_enabled move_up (move_down at))
          (λ f. refl)
          (λ f.
            if-holds same (enabled_at (move_down at).items (move_down at).sel) (move_down at)
              (move_up (move_down at)) (λ g. move_down-items at)
              (λ g. move_up-items (move_down at) ∙ move_down-items at)))

set_items-IsSelecting : (items : List MenuItem) → IsSelecting (set_items items)
unfolding set_items
set_items-IsSelecting items = elim (Option-cases (first_from (λ item. item.enabled) 0 items)) [
  | inl n ↦ inr (first_from-none (λ item. item.enabled) 0 items n)
  | inr (j, f) ↦
      let there = first_from-enabled (λ item. item.enabled) items {j = j} (λ item e. e) f in
      inl (ap (λ o. enabled_at items (or_zero o)) f ∙ there)
]

select_hotkey-IsSelecting : (ch : ℕ) (m : Menu) → IsSelecting m → IsSelecting (select_hotkey ch m)
unfolding select_hotkey index_for_hotkey
select_hotkey-IsSelecting ch m i =
    let test : MenuItem → Bool = λ item. item.enabled && item.hotkey == lower_key ch in
    elim (Option-cases (first_from test 0 m.items)) [
      | inl n ↦ subst (λ o. IsSelecting (select_found m o)) (sym n) i
      | inr (j, f) ↦
          let there =
            first_from-enabled test m.items {j = j} (λ item e. (&&-true item.enabled _ e).0) f in
          subst (λ o. IsSelecting (select_found m o)) (sym f) (inl there)
    ]

-- What can happen to a menu.
pub data Action : Type 0 where
  go_up go_down : Action
  press : ℕ → Action
  choose : ℤ → Action
  rebuild : List MenuItem → Action

abbrev pub act : Action → Menu → Menu
act go_up = move_up
act go_down = move_down
act (press ch) = select_hotkey ch
act (choose i) = set_selected i
act (rebuild items) = λ m. set_items items

-- Whatever happens to a menu, the selected item afterwards is one of its items and enabled, unless
-- none of them is; given that this held before, as it does of the empty menu. In particular
-- `SetSelected` of any index, also of one out of range, finds an enabled item where there is one.
pub act-IsSelecting : (a : Action) (m : Menu) → IsSelecting m → IsSelecting (act a m)
act-IsSelecting go_up m (inl e) = inl (move_up-IsOn m e)
act-IsSelecting go_up m (inr e) = inr (ap none_enabled (move_up-items m) ∙ e)
act-IsSelecting go_down m (inl e) = inl (move_down-IsOn m e)
act-IsSelecting go_down m (inr e) = inr (ap none_enabled (move_down-items m) ∙ e)
act-IsSelecting (press ch) m i = select_hotkey-IsSelecting ch m i
act-IsSelecting (choose i) m (inl e) = inl (set_selected-IsOn i m e)
act-IsSelecting (choose i) m (inr e) = inr (ap none_enabled (set_selected-items i m) ∙ e)
act-IsSelecting (rebuild items) m i = set_items-IsSelecting items
