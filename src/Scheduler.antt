-- ===== src/Scheduler.antt =====
-- kernel/scheduler: the task pool of task.c and the loop of scheduler.c. Calling a task is an
-- event of the trace; the functions of `FunctionList` print or draw, and leave the pool alone.
-- The lines that only print are left out.
pub mod Create
pub mod Dotask
pub mod Starve
use unos_kernel.Prelude.{
  ℕ, zero, suc, ◌+◌, ◌-◌, Bool, true, false, not, ◌||◌, Option, none, some, List, [], ◌∷◌, ◌++◌,
  ltb, leb, ◌==◌, if◌then◌else◌, get_or, set, ◌>>=◌, map,
}

-- ENUM_TASK, in the order of its values: a zeroed entry is `running`.
pub data Level : Type 0 where
  running ready waiting terminated priority : Level

abbrev pub is_running : Level → Bool
is_running Level.running = true
is_running _ = false

abbrev pub is_terminated : Level → Bool
is_terminated Level.terminated = true
is_terminated _ = false

abbrev pub is_priority : Level → Bool
is_priority Level.priority = true
is_priority _ = false

-- `task_t`: `next` is an index of TaskPool, `none` is NULL; a function is its address.
pub record Task : Type 0 where
  pub pid : ℕ
  pub level : Level
  pub stack_pointer : ℕ
  pub timeslice : ℕ
  pub next : Option ℕ
  pub function : ℕ

-- A zeroed entry.
abbrev pub blank : Task
blank = record {
  pid = 0;
  level = Level.running;
  stack_pointer = 0;
  timeslice = 0;
  next = none;
  function = 0;
}

abbrev pub pool_size : ℕ
pool_size = 64

-- TaskPool and TaskCount
pub record Pool : Type 0 where
  pub tasks : List Task
  pub count : ℕ

abbrev pub task_at : List Task → ℕ → Task
task_at tasks i = get_or tasks i blank

-- The entry `TaskPool[TaskCount - 1].Next = NewTask`, or `NewTask->Next = 0` for the first task.
abbrev link_last : Pool → List Task → List Task
link_last s tasks =
    if s.count == 0
    then set tasks 0 (record (task_at tasks 0) { next = none })
    else set tasks (s.count - 1) (record (task_at tasks (s.count - 1)) { next = some s.count })

unfoldable pub createtask : Pool → ℕ → Level → Pool
createtask s function level = if leb pool_size s.count then s else record {
  tasks = link_last s (
      set s.tasks s.count (record (task_at s.tasks s.count) {
        pid = s.count + 1;
        level = level;
        stack_pointer = 0;
        timeslice = 5;
        function = function;
      }));
  count = s.count + 1;
}

-- `is_function_valid`, over the addresses in FunctionList
unfoldable pub is_function_valid : List ℕ → ℕ → Bool
is_function_valid [] func = false
is_function_valid (f ∷ fs) func = f == func || is_function_valid fs func

-- The variables of dotask: the pool, CurrentTask, and the calls made so far.
pub record Run : Type 0 where
  pub tasks : List Task
  pub current : Option ℕ
  pub trace : List ℕ

-- `none` is a read through a null CurrentTask.
abbrev pub current_task : Run → Option Task
current_task r = elim r.current [ none ↦ none | some i ↦ some (task_at r.tasks i) ]

abbrev pub call : Run → ℕ → Run
call r function = record r { trace = r.trace ++ (function ∷ []) }

abbrev pub terminate : Run → ℕ → Run
terminate r j = record r {
  tasks = set r.tasks j (record (task_at r.tasks j) { level = Level.terminated });
}

-- What the loop does with a round: go on, or `break`.
pub data Next : Type 0 where
  go_on : Run → Next
  stop : Run → Next

module _ (functions : List ℕ) where
  -- One round of the `k` loop, for the priority task `j`. The test is on CurrentTask's function.
  pub run_priority : Run → ℕ → Option Run
  run_priority r j = if (task_at r.tasks j).function == 0 then some r else (do
    t ← current_task r
    if is_function_valid functions t.function
        then some (terminate (call r (task_at r.tasks j).function) j)
        else some (terminate r j))

  -- The `j` loop, with `left` tasks to go.
  pub priority_pass : ℕ → ℕ → Run → Option Run
  priority_pass zero j r = some r
  priority_pass (suc left) j r = do
    r' ←
        (if is_priority (task_at r.tasks j).level
          then (do once ← run_priority r j; run_priority once j)
          else some r)
    priority_pass left (j + 1) r'

  -- The rest of a round of the `i` loop, behind the priority tasks.
  pub normal_task : ℕ → Run → Option Next
  normal_task i r = if is_running (task_at r.tasks i).level then some (stop r) else (do
    t ← current_task r
    if is_terminated t.level
        then some (go_on r)
        else if t.function == 0
        then some (go_on r)
        else (let called =
              if is_function_valid functions t.function then call r t.function else r in
            if is_terminated t.level
            then some (stop called)
            else some (go_on (record called { current = t.next }))))

  pub rounds : ℕ → ℕ → ℕ → Run → Option Run
  rounds count zero i r = some r
  rounds count (suc left) i r = do
    r' ← priority_pass count 0 r
    n ← normal_task i r'
    elim n [ stop r'' ↦ some r'' | go_on r'' ↦ rounds count left (i + 1) r'' ]

  pub dotask : Pool → Option Run
  dotask s = rounds s.count 10 0 (record { tasks = s.tasks; current = some 0; trace = [] })
