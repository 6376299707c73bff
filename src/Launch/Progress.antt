-- ===== src/Launch/Progress.antt =====
-- config/ProgressModel.h and config/ProgressModel.cpp, each method run by one thread at a time;
-- Progress/Threads interleaves them. `int` is ℕ where no negative number occurs; the sums stay below
-- 2^31 as long as the step does.
pub mod Threads
use cheburnet.Base.{
  ℕ, zero, suc, ◌+◌, ◌-◌, ◌≤◌, ◌<◌, ◌≡◌, refl, ◌⊎◌, Bool, true, false, List, [], ◌∷◌, Option, none,
  some, Bytes, arith, get_elem?, length, ltb, leb, if◌then◌else◌,
}

pub data Stage : Type 0 where
  start os_check admin_check runtime_prep extract_verify : Stage
  conflict_check args_prep launch_proc proc_alive confirmed : Stage

pub data RunState : Type 0 where
  running success error : RunState

-- An `int` that may be negative.
pub data ℤ : Type 0 where
  pos negsuc : ℕ → ℤ

abbrev pub index : Stage → ℕ
index start = 0
index os_check = 1
index admin_check = 2
index runtime_prep = 3
index extract_verify = 4
index conflict_check = 5
index args_prep = 6
index launch_proc = 7
index proc_alive = 8
index confirmed = 9

abbrev pub k_percent : List ℕ
k_percent = 5 ∷ 10 ∷ 20 ∷ 35 ∷ 50 ∷ 60 ∷ 70 ∷ 80 ∷ 90 ∷ 100 ∷ []

abbrev pub stage_count : ℕ
stage_count = length k_percent

-- `kPercent[i]`, whose index always lies inside the table.
abbrev pub percent_at : ℕ → ℕ
percent_at i = elim (get_elem? k_percent i) [ none ↦ 0 | some p ↦ p ]

abbrev pub min : ℕ → ℕ → ℕ
min a b = if ltb b a then b else a

unfoldable pub percent_for_stage : Stage → ℕ
percent_for_stage s =
    let i = index s in percent_at (if leb stage_count i then stage_count - 1 else i)

pub record Progress : Type 0 where
  -- `reached_`, with `none` for -1.
  pub reached : Option ℕ
  pub anim : ℕ
  pub state : RunState
  pub error_message : Bytes

abbrev pub new_progress : Progress
new_progress = record { reached = none; anim = 0; state = running; error_message = [] }

-- The effect of the compare-exchange loop of `Reach`.
abbrev pub raise : ℕ → Option ℕ → Option ℕ
raise i none = some i
raise i (some r) = some (if ltb r i then i else r)

abbrev pub confirm : Stage → Progress → Progress
confirm confirmed m = record m { state = success; anim = 100 }
confirm _ m = m

unfoldable pub reach : Stage → Progress → Progress
reach s m = confirm s (record m { reached = raise (index s) m.reached })

abbrev pub fail : RunState → RunState
fail running = error
fail s = s

unfoldable pub mark_error : Bytes → Progress → Progress
mark_error message m = record m { error_message = message; state = fail m.state }

abbrev pub floor_of : Option ℕ → ℕ
floor_of none = 0
floor_of (some r) = percent_at (min r (stage_count - 1))

unfoldable pub floor : Progress → ℕ
floor m = floor_of m.reached

-- `r + 1`
abbrev pub next_of : Option ℕ → ℕ
next_of none = 0
next_of (some r) = suc r

abbrev pub ceiling_of : RunState → Option ℕ → ℕ
ceiling_of success r = 100
ceiling_of error r = floor_of r
ceiling_of running r =
    let next = next_of r in if leb stage_count next then 99 else min (percent_at next - 1) 99

unfoldable pub ceiling : Progress → ℕ
ceiling m = ceiling_of m.state m.reached

-- `if (step < 0) step = 0`
abbrev pub forward : ℤ → ℕ
forward (pos n) = n
forward (negsuc n) = 0

-- The new value of `Tick` from the floor, the ceiling and the old value.
abbrev pub advance : ℕ → ℕ → ℕ → ℕ → ℕ
advance step f c v =
    let v₁ = if ltb v f then f else v in
    let v₂ = if ltb v₁ c then min c (v₁ + step) else v₁ in if ltb c v₂ then c else v₂

unfoldable pub tick : ℤ → Progress → ℕ × Progress
unfolding floor ceiling
tick step m =
    let v = advance (forward step) (floor m) (ceiling m) m.anim in (v, record m { anim = v })

unfoldable pub display : Progress → ℕ
unfolding floor ceiling
display m =
    let v = if ltb m.anim (floor m) then floor m else m.anim in
    if ltb (ceiling m) v then ceiling m else v

-- All the code of this file, for the runs of other modules.
unfoldable pub progress_code : Unit {0}
unfolding reach mark_error floor ceiling tick display percent_for_stage
progress_code = tt
