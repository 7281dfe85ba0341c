-- ===== src/Parallel.antt =====
-- A list of tasks that run in goroutines, each with a slot of its own for its result. The goroutines
-- run one after the other, in the order of a schedule.
pub mod Slots
use cnpg_plugin_pgbackrest.Base.{
  ℕ, List, [], ◌∷◌, Option, none, some, get_elem?, set, replicate, length,
}

module _ {S A R : Type 0} (work : ℕ → A → S → R × S) where
  abbrev pub State : Type 0
  State = List (Option R) × S

  run_one : ℕ → Option A → State → State
  run_one index none st = st
  run_one index (some task) (slots, s) =
      let (r, s') = work index task s in (set slots index (some r), s')

  -- The goroutine of an index runs from its start to its end.
  unfoldable pub step : List A → ℕ → State → State
  unfolding run_one
  step tasks index st = run_one index (get_elem? tasks index) st

  unfoldable pub run_from : List A → List ℕ → State → State
  unfolding step
  run_from tasks [] st = st
  run_from tasks (i ∷ schedule) st = run_from tasks schedule (step tasks i st)

  -- All slots are empty at first.
  unfoldable pub run_schedule : List A → List ℕ → S → State
  unfolding run_from
  run_schedule tasks schedule s = run_from tasks schedule (replicate (length tasks) none, s)
