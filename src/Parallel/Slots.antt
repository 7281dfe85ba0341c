-- ===== src/Parallel/Slots.antt =====
-- Whatever the schedule, the result of a task stands in the slot of the task.
use cnpg_plugin_pgbackrest.Base.{
  ℕ, ◌≡◌, ◌≢◌, inl, inr, refl, sym, ap, ◌∙◌, subst, Bool, true, false, ◌||◌, List, [], ◌∷◌, Option,
  none, some, ◌==◌, ==_iff, length, get_elem?, set, length-set, get_elem?-set_self,
  get_elem?-set_ne, get_elem?-lt, Bool-cases, Option-cases, arith, replicate, length-replicate,
}
use cnpg_plugin_pgbackrest.Parallel.{State, step, run_one, run_from, run_schedule}

-- The index has a turn in the schedule.
abbrev pub occurs : ℕ → List ℕ → Bool
occurs i [] = false
occurs i (j ∷ js) = j == i || occurs i js

later : (i j : ℕ) (js : List ℕ) → (j == i) ≡ false → occurs i (j ∷ js) ≡ true → occurs i js ≡ true
later i j js h0 h1 = ground arith

differ : (i j : ℕ) → (j == i) ≡ false → j ≢ i
differ i j h = ground arith

module _ {S A R : Type 0} (work : ℕ → A → S → R × S) (tasks : List A) where
  -- The result is one of running the task of that index, from some state.
  abbrev pub IsResult : ℕ → R → Type 0
  IsResult i r = (task : A) × (get_elem? tasks i ≡ some task) × ((s : S) × (r ≡ (work i task s).0))

  -- There is a slot for each task, and that of the index holds a result of its task.
  abbrev pub IsFilled : State work → ℕ → Type 0
  IsFilled st i =
      (length st.0 ≡ length tasks) × ((r : R) × (get_elem? st.0 i ≡ some (some r)) × IsResult i r)

  step-some :
      (slots : List (Option R)) (s : S) (i : ℕ) (task : A)
      → get_elem? tasks i ≡ some task
      → step work tasks i (slots, s) ≡ (set slots i (some (work i task s).0), (work i task s).1)
  unfolding step run_one
  step-some slots s i task e = rw e

  step-none :
      (slots : List (Option R)) (s : S) (i : ℕ)
      → get_elem? tasks i ≡ none
      → step work tasks i (slots, s) ≡ (slots, s)
  unfolding step run_one
  step-none slots s i e = rw e

  set_fills :
      (slots : List (Option R)) (s s' : S) (i : ℕ) (task : A)
      → length slots ≡ length tasks
      → get_elem? tasks i ≡ some task
      → IsFilled (set slots i (some (work i task s).0), s') i
  set_fills slots s s' i task same e =
      let bound = get_elem?-lt tasks i e in
      let r = (work i task s).0 in
      (
        length-set slots i (some r) ∙ same,
        (r, get_elem?-set_self slots i (some r) (omega arith), (task, e, (s, refl))),
      )

  -- A goroutine fills its own slot.
  step_fills :
      (slots : List (Option R)) (s : S) (i : ℕ) (task : A)
      → length slots ≡ length tasks
      → get_elem? tasks i ≡ some task
      → IsFilled (step work tasks i (slots, s)) i
  step_fills slots s i task same e =
      subst (λ st. IsFilled st i) (sym (step-some slots s i task e))
        (set_fills slots s (work i task s).1 i task same e)

  -- A filled slot stays filled.
  set_keeps :
      (slots : List (Option R)) (s s' : S) (i j : ℕ) (r : R)
      → j ≢ i
      → IsFilled (slots, s) i
      → IsFilled (set slots j (some r), s') i
  set_keeps slots s s' i j r ne (same, (r', at, right)) =
      (length-set slots j (some r) ∙ same, (r', get_elem?-set_ne slots (some r) ne ∙ at, right))

  step_keeps :
      (slots : List (Option R)) (s : S) (i j : ℕ)
      → IsFilled (slots, s) i
      → IsFilled (step work tasks j (slots, s)) i
  step_keeps slots s i j filled = elim (Option-cases (get_elem? tasks j)) [
    | inl h0 ↦ subst (λ st. IsFilled st i) (sym (step-none slots s j h0)) filled
    | inr (task, e) ↦ elim (Bool-cases (j == i)) [
      | inl h1 ↦
          subst (λ k. IsFilled (step work tasks j (slots, s)) k) ((==_iff j i).0 h1)
            (step_fills slots s j task filled.0 e)
      | inr h1 ↦
          subst (λ st. IsFilled st i) (sym (step-some slots s j task e))
            (set_keeps slots s (work j task s).1 i j (work j task s).0 (differ i j h1) filled)
    ]
  ]

  length-step :
      (slots : List (Option R)) (s : S) (i : ℕ)
      → length (step work tasks i (slots, s)).0 ≡ length slots
  length-step slots s i = elim (Option-cases (get_elem? tasks i)) [
    | inl h0 ↦ ap (λ st. length st.0) (step-none slots s i h0)
    | inr (task, e) ↦
        ap (λ st. length st.0) (step-some slots s i task e)
        ∙ length-set slots i (some (work i task s).0)
  ]

  run_keeps :
      (schedule : List ℕ) (slots : List (Option R)) (s : S) (i : ℕ)
      → IsFilled (slots, s) i
      → IsFilled (run_from work tasks schedule (slots, s)) i
  unfolding run_from
  run_keeps [] slots s i filled = filled
  run_keeps (j ∷ js) slots s i filled =
      let st = step work tasks j (slots, s) in
      run_keeps js st.0 st.1 i (step_keeps slots s i j filled)

  run_fills :
      (schedule : List ℕ) (slots : List (Option R)) (s : S) (i : ℕ) (task : A)
      → length slots ≡ length tasks
      → occurs i schedule ≡ true
      → get_elem? tasks i ≡ some task
      → IsFilled (run_from work tasks schedule (slots, s)) i
  unfolding run_from
  run_fills [] slots s i task same there e = cc
  run_fills (j ∷ js) slots s i task same there e =
      let st = step work tasks j (slots, s) in
      elim (Bool-cases (j == i)) [
        | inl h1 ↦
            let eq : i ≡ j = sym ((==_iff j i).0 h1) in
            run_keeps js st.0 st.1 i (
              subst (λ k. IsFilled st k) (sym eq)
                (step_fills slots s j task same (subst (λ k. get_elem? tasks k ≡ some task) eq e)))
        | inr h1 ↦
            run_fills js st.0 st.1 i task (length-step slots s j ∙ same) (later i j js h1 there) e
      ]

  -- A task that has a turn in the schedule leaves a result of its own in its slot.
  pub run_schedule-IsFilled :
      (schedule : List ℕ) (s : S) (i : ℕ) (task : A)
      → occurs i schedule ≡ true
      → get_elem? tasks i ≡ some task
      → IsFilled (run_schedule work tasks schedule s) i
  unfolding run_schedule
  run_schedule-IsFilled schedule s i task there e =
      run_fills schedule (replicate (length tasks) none) s i task
        (length-replicate (length tasks) none) there e
