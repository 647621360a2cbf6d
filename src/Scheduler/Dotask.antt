-- ===== src/Scheduler/Dotask.antt =====
-- dotask on a pool of ordinary tasks: which functions it calls, and in which order.
use unos_kernel.Prelude.{
  ℕ, zero, suc, ◌+◌, ◌-◌, ◌≤◌, ◌<◌, ◌≡◌, ◌≢◌, refl, ◌∙◌, ap, sym, true, false, Option, none, some,
  List, [], ◌∷◌, ◌++◌, arith, ◌==◌, if◌then◌else◌, min,
}
use Prim.Native.Nat.{zero-le}
use native.Mathlib.Decide.{dec_lt}
use mathlib.Core.List.{append_assoc, append-nil}
use unos_kernel.Scheduler.{
  Task, Pool, Run, go_on, stop, task_at, is_running, is_terminated, is_priority, is_function_valid,
  priority_pass, normal_task, rounds, dotask,
}
use unos_kernel.Scheduler.Create.{IsLinked}

-- Ready or waiting, with a function of the list.
pub record IsOrdinary (functions : List ℕ) (t : Task) : Type 0 where
  pub not_running : is_running t.level ≡ false
  pub not_terminated : is_terminated t.level ≡ false
  pub not_priority : is_priority t.level ≡ false
  pub not_null : t.function ≢ 0
  pub valid : is_function_valid functions t.function ≡ true

-- The functions of `n` tasks from task `i` on.
pub functions_from : List Task → ℕ → ℕ → List ℕ
functions_from tasks i zero = []
functions_from tasks i (suc n) = (task_at tasks i).function ∷ functions_from tasks (i + 1) n

-- Without priority tasks the `j` loop does nothing.
pub priority_pass-idle :
    (functions : List ℕ) (left j : ℕ) (r : Run)
    → ((k : ℕ) → j ≤ k → k < j + left → is_priority (task_at r.tasks k).level ≡ false)
    → priority_pass functions left j r ≡ some r
unfolding priority_pass
priority_pass-idle functions zero j r h = refl
priority_pass-idle functions (suc left) j r h =
    rw (h j (omega arith) (omega arith))
      (priority_pass-idle functions left (j + 1) r (λ k lo hi. h k (omega arith) (omega arith)))

-- One round that calls the current task `k`.
normal_task-ordinary :
    (functions : List ℕ) (i k : ℕ) (r : Run)
    → is_running (task_at r.tasks i).level ≡ false
    → r.current ≡ some k
    → IsOrdinary functions (task_at r.tasks k)
    → normal_task functions i r
      ≡ some (
          go_on (record r {
            trace = r.trace ++ (task_at r.tasks k).function ∷ [];
            current = (task_at r.tasks k).next;
          }))
unfolding normal_task
normal_task-ordinary functions i k r live at o =
    let test : ((task_at r.tasks k).function == 0) ≡ false = ground (arith, o.not_null) in
    rw (live, at, o.not_terminated, test, o.valid)

-- The loop stops at a zeroed entry.
rounds-stop :
    (functions : List ℕ) (count left i : ℕ) (r : Run)
    → priority_pass functions count 0 r ≡ some r
    → is_running (task_at r.tasks i).level ≡ true
    → rounds functions count (suc left) i r ≡ some r
unfolding rounds normal_task
rounds-stop functions count left i r idle live = rw (idle, live)

module _ (functions : List ℕ) (s : Pool) (linked : IsLinked s)
    (ordinary : (i : ℕ) → i < s.count → IsOrdinary functions (task_at s.tasks i)) where
  -- Before round `i`: the current task is task `i`, or null behind the last one.
  abbrev at_round : ℕ → List ℕ → Run
  at_round i trace = record {
    tasks = s.tasks;
    current = if i == s.count then none else some i;
    trace = trace;
  }

  idle :
      (i : ℕ) (trace : List ℕ)
      → priority_pass functions s.count 0 (at_round i trace) ≡ some (at_round i trace)
  idle i trace =
      priority_pass-idle functions s.count 0 (at_round i trace)
        (λ k lo hi. (ordinary k (omega arith)).not_priority)

  normal_task-call :
      (i : ℕ) (trace : List ℕ)
      → i < s.count
      → normal_task functions i (at_round i trace)
        ≡ some (go_on (at_round (i + 1) (trace ++ (task_at s.tasks i).function ∷ [])))
  normal_task-call i trace h =
      let o = ordinary i h in
      let here : (if i == s.count then none else some i) ≡ some i = ground arith in
      let there : (task_at s.tasks i).next ≡ (if i + 1 == s.count then none else some (i + 1)) =
        ground (arith, (linked.entry i h).next) in
      normal_task-ordinary functions i i (at_round i trace) o.not_running here o
      ∙ ap
          (λ n. some (
            go_on (record {
              tasks = s.tasks;
              current = n;
              trace = trace ++ (task_at s.tasks i).function ∷ [];
            })))
          there

  normal_task-end :
      (trace : List ℕ)
      → normal_task functions s.count (at_round s.count trace)
        ≡ some (stop (at_round s.count trace))
  unfolding normal_task
  normal_task-end trace = rw (linked.unused s.count (omega arith))

  rounds-calls :
      (left i : ℕ) (trace : List ℕ)
      → i ≤ s.count
      → (r : Run) × (rounds functions s.count left i (at_round i trace) ≡ some r)
        × (r.trace ≡ trace ++ functions_from s.tasks i (min left (s.count - i)))
  unfolding rounds functions_from
  rounds-calls zero i trace h = (
    at_round i trace,
    refl,
    sym (append-nil trace) ∙ ap (λ n. trace ++ functions_from s.tasks i n) {x = 0} (omega arith),
  )
  rounds-calls (suc left) i trace h = elim (dec_lt i s.count) [
    | yes more ↦
        let f = (task_at s.tasks i).function in
        let (r, run, calls) = rounds-calls left (i + 1) (trace ++ f ∷ []) (omega arith) in
        let fewer : min (suc left) (s.count - i) ≡ suc (min left (s.count - (i + 1))) =
          omega arith in
        (
          r,
          rw (idle i trace, normal_task-call i trace more) run,
          rw fewer (
              calls
              ∙ append_assoc trace (f ∷ [])
                  (functions_from s.tasks (i + 1) (min left (s.count - (i + 1))))),
        )
    | no done ↦
        let at_end : i ≡ s.count = omega arith in
        let none_left : min (suc left) (s.count - s.count) ≡ 0 = omega arith in
        rw at_end (
          at_round s.count trace,
          rw (idle s.count trace, normal_task-end trace),
          rw none_left (sym (append-nil trace)),
        )
  ]

  -- On a linked pool of ordinary tasks, dotask never reads a null task, and calls the functions of
  -- the first ten tasks, or of all if they are fewer, each once and in the order of creation.
  pub dotask-functions :
      (r : Run) × (dotask functions s ≡ some r)
      × (r.trace ≡ functions_from s.tasks 0 (min 10 s.count))
  unfolding dotask functions_from
  dotask-functions = elim (dec_lt 0 s.count) [
    | yes some_task ↦
        let start : ◌≡◌ {A = Option ℕ} (if 0 == s.count then none else some 0) (some 0) =
          ground arith in
        let (r, run, calls) = rounds-calls 10 0 [] zero-le in
        (
          r,
          ap
                (λ n.
                  rounds functions s.count 10 0
                    (record { tasks = s.tasks; current = n; trace = [] }))
                (sym start)
              ∙ run,
          calls
              ∙ ap (λ n. functions_from s.tasks 0 (min 10 n)) {x = s.count - 0} {y = s.count}
                  (omega arith),
        )
    | no no_task ↦
        let empty : s.count ≡ 0 = omega arith in
        (
          record { tasks = s.tasks; current = some 0; trace = [] },
          rounds-stop functions s.count 9 0
              (record { tasks = s.tasks; current = some 0; trace = [] })
              (priority_pass-idle functions s.count 0 _ (λ k lo hi. absurd (omega arith)))
              (ap (λ t. is_running t.level) (linked.unused 0 (omega arith))),
          ap (λ n. functions_from s.tasks 0 n) {x = 0} {y = min 10 s.count} (omega arith),
        )
  ]
