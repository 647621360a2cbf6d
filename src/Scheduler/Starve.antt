-- ===== src/Scheduler/Starve.antt =====
-- dotask on a pool whose first task has priority: it runs twice, and the ordinary tasks never.
use unos_kernel.Prelude.{
  ℕ, zero, suc, ◌+◌, ◌-◌, ◌<◌, ◌≡◌, ◌≢◌, refl, ◌∙◌, ap, sym, true, false, some, List, [], ◌∷◌, ◌++◌,
  arith, ◌==◌, if◌then◌else◌, Bool-cases, inl, inr, length, length-set, set, get_or-set,
}
use native.Mathlib.Decide.{dec_lt}
use unos_kernel.Scheduler.{
  Level, Task, blank, Pool, Run, task_at, is_running, is_terminated, is_priority, is_function_valid,
  run_priority, priority_pass, normal_task, rounds, dotask,
}
use unos_kernel.Scheduler.Create.{IsLinked}
use unos_kernel.Scheduler.Dotask.{IsOrdinary, priority_pass-idle}

-- A task of top priority whose function is in the list.
pub record IsUrgent (functions : List ℕ) (t : Task) : Type 0 where
  pub level : t.level ≡ Level.priority
  pub not_null : t.function ≢ 0
  pub valid : is_function_valid functions t.function ≡ true

-- The pool with its first task terminated.
abbrev ended : List Task → List Task
ended tasks = set tasks 0 (record (task_at tasks 0) { level = Level.terminated })

task_at-ended :
    (tasks : List Task) (i : ℕ)
    → 0 < length tasks
    → task_at (ended tasks) i
      ≡ (if 0 == i then record (task_at tasks 0) { level = Level.terminated } else task_at tasks i)
task_at-ended tasks i h = get_or-set tasks 0 i _ blank h

module _ (functions : List ℕ) (tasks : List Task) (has_first : 0 < length tasks)
    (not_null : (task_at tasks 0).function ≢ 0)
    (valid : is_function_valid functions (task_at tasks 0).function ≡ true) where
  -- One round of the `k` loop.
  run_priority-first :
      (trace : List ℕ)
      → run_priority functions (record { tasks = tasks; current = some 0; trace = trace }) 0
        ≡ some (record {
          tasks = ended tasks;
          current = some 0;
          trace = trace ++ (task_at tasks 0).function ∷ [];
        })
  unfolding run_priority
  run_priority-first trace =
      let test : ((task_at tasks 0).function == 0) ≡ false = ground (arith, not_null) in
      rw (test, valid)

-- The loop's variables while CurrentTask is the first task.
abbrev at_first : List Task → List ℕ → Run
at_first tasks trace = record { tasks = tasks; current = some 0; trace = trace }

-- The rounds of the outer loop once the first task is terminated: CurrentTask does not move.
rounds-stuck :
    (functions : List ℕ) (count left i : ℕ) (tasks : List Task) (trace : List ℕ)
    → is_terminated (task_at tasks 0).level ≡ true
    → priority_pass functions count 0 (at_first tasks trace) ≡ some (at_first tasks trace)
    → rounds functions count left i (at_first tasks trace) ≡ some (at_first tasks trace)
unfolding rounds normal_task
rounds-stuck functions count zero i tasks trace over idle = refl
rounds-stuck functions count (suc left) i tasks trace over idle =
    elim (Bool-cases (is_running (task_at tasks i).level)) [
      | inl live ↦ rw (idle, live)
      | inr other ↦
          rw (idle, other, over) (rounds-stuck functions count left (i + 1) tasks trace over idle)
    ]

-- A first round whose priority pass leaves the first task terminated is the last that matters.
rounds-after :
    (functions : List ℕ) (count left : ℕ) (r : Run) (tasks : List Task) (trace : List ℕ)
    → priority_pass functions count 0 r ≡ some (at_first tasks trace)
    → is_terminated (task_at tasks 0).level ≡ true
    → is_running (task_at tasks 0).level ≡ false
    → priority_pass functions count 0 (at_first tasks trace) ≡ some (at_first tasks trace)
    → rounds functions count (suc left) 0 r ≡ some (at_first tasks trace)
unfolding rounds normal_task
rounds-after functions count left r tasks trace pass over other idle =
    rw (pass, other, over) (rounds-stuck functions count left 1 tasks trace over idle)

-- The priority pass of the first round.
priority_pass-first :
    (functions : List ℕ) (left : ℕ) (r once twice : Run)
    → is_priority (task_at r.tasks 0).level ≡ true
    → run_priority functions r 0 ≡ some once
    → run_priority functions once 0 ≡ some twice
    → priority_pass functions (suc left) 0 r ≡ priority_pass functions left 1 twice
unfolding priority_pass
priority_pass-first functions left r once twice urgent first second = rw (urgent, first, second)

-- On a linked pool whose first task is a priority task with a function that is not null and in
-- FunctionList, and that has only ordinary tasks behind it (ready or waiting, their functions not
-- null and in the list), dotask calls the function of the first task twice, and no other function.
pub dotask-starves :
    (functions : List ℕ) (s : Pool)
    → IsLinked s
    → 0 < s.count
    → IsUrgent functions (task_at s.tasks 0)
    → ((i : ℕ) → 0 < i → i < s.count → IsOrdinary functions (task_at s.tasks i))
    → (r : Run) × (dotask functions s ≡ some r)
      × (r.trace ≡ (task_at s.tasks 0).function ∷ (task_at s.tasks 0).function ∷ [])
unfolding dotask
dotask-starves functions s linked some_task u ordinary = (
  at_first done (f ∷ f ∷ []),
  rounds-after functions s.count 9 (at_first s.tasks []) done (f ∷ f ∷ []) pass over not_live idle,
  refl,
)
  where
    f : ℕ
    f = (task_at s.tasks 0).function

    done : List Task
    done = ended (ended s.tasks)

    nonempty : 0 < length s.tasks
    nonempty = omega (arith, linked.size)

    nonempty' : 0 < length (ended s.tasks)
    nonempty' = omega (
      arith,
      linked.size,
      length-set s.tasks 0 (record (task_at s.tasks 0) { level = Level.terminated }),
    )

    once : task_at (ended s.tasks) 0 ≡ record (task_at s.tasks 0) { level = Level.terminated }
    once = task_at-ended s.tasks 0 nonempty

    twice : task_at done 0 ≡ record (task_at s.tasks 0) { level = Level.terminated }
    twice =
        task_at-ended (ended s.tasks) 0 nonempty'
        ∙ ap {A = Task} (λ t. record t { level = Level.terminated }) once

    over : is_terminated (task_at done 0).level ≡ true
    over = ap (λ t. is_terminated t.level) twice

    not_live : is_running (task_at done 0).level ≡ false
    not_live = ap (λ t. is_running t.level) twice

    calm : (k : ℕ) → k < s.count → is_priority (task_at done k).level ≡ false
    calm k h = elim (dec_lt 0 k) [
      | no first ↦ let e : k ≡ 0 = omega arith in rw e (ap (λ t. is_priority t.level) twice)
      | yes later ↦
          let test : (0 == k) ≡ false = ground arith in
          let here : task_at (ended s.tasks) k ≡ task_at s.tasks k =
            task_at-ended s.tasks k nonempty ∙ rw test in
          let there : task_at done k ≡ task_at (ended s.tasks) k =
            task_at-ended (ended s.tasks) k nonempty' ∙ rw test in
          ap (λ t. is_priority t.level) (there ∙ here) ∙ (ordinary k later h).not_priority
    ]

    idle :
        priority_pass functions s.count 0 (at_first done (f ∷ f ∷ []))
        ≡ some (at_first done (f ∷ f ∷ []))
    idle = priority_pass-idle functions s.count 0 _ (λ k lo hi. calm k (omega arith))

    count_suc : s.count ≡ suc (s.count - 1)
    count_suc = omega arith

    same : (task_at (ended s.tasks) 0).function ≡ f
    same = ap (λ t. t.function) once

    second :
        run_priority functions (at_first (ended s.tasks) (f ∷ [])) 0
        ≡ some (at_first done (f ∷ f ∷ []))
    second =
        run_priority-first functions (ended s.tasks) nonempty' (λ e. u.not_null (sym same ∙ e))
          (ap (is_function_valid functions) same ∙ u.valid) (f ∷ [])
        ∙ ap (λ g. some (at_first done (f ∷ g ∷ []))) same

    pass :
        priority_pass functions s.count 0 (at_first s.tasks []) ≡ some (at_first done (f ∷ f ∷ []))
    pass =
        ap (λ n. priority_pass functions n 0 (at_first s.tasks [])) count_suc
        ∙ priority_pass-first functions (s.count - 1) (at_first s.tasks [])
            (at_first (ended s.tasks) (f ∷ [])) (at_first done (f ∷ f ∷ []))
            (ap is_priority u.level)
            (run_priority-first functions s.tasks nonempty u.not_null u.valid []) second
        ∙ priority_pass-idle functions (s.count - 1) 1 _ (λ k lo hi. calm k (omega arith))
