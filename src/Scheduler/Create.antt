-- ===== src/Scheduler/Create.antt =====
-- createtask: the pool is a list of numbered tasks, each linked to the one after it.
use unos_kernel.Prelude.{
  ℕ, suc, ◌+◌, ◌-◌, ◌≤◌, ◌<◌, ◌≡◌, ◌∙◌, false, leb→le, none, some, List, arith, ◌==◌, leb,
  if◌then◌else◌, Bool-cases, inl, inr, length, length-set, set, get_or-set,
}
use unos_kernel.Scheduler.{Level, Task, blank, pool_size, Pool, task_at, link_last, createtask}

-- What an entry holds when `count` tasks have been made.
pub record IsEntry (count i : ℕ) (t : Task) : Type 0 where
  pub pid : t.pid ≡ i + 1
  pub next : t.next ≡ (if suc i == count then none else some (i + 1))
  pub timeslice : t.timeslice ≡ 5

pub record IsLinked (s : Pool) : Type 0 where
  pub size : length s.tasks ≡ pool_size
  pub fits : s.count ≤ pool_size
  pub entry : (i : ℕ) → i < s.count → IsEntry s.count i (task_at s.tasks i)
  pub unused : (i : ℕ) → s.count ≤ i → task_at s.tasks i ≡ blank

-- The entry that createtask fills in.
abbrev pub new_task : ℕ → ℕ → Level → Task
new_task count function level = record {
  pid = count + 1;
  level = level;
  stack_pointer = 0;
  timeslice = 5;
  next = none;
  function = function;
}

length-link_last : (s : Pool) (tasks : List Task) → length (link_last s tasks) ≡ length tasks
length-link_last s tasks = elim (Bool-cases (s.count == 0)) [
  | inl first ↦ rw first (length-set tasks 0 _)
  | inr later ↦ rw later (length-set tasks (s.count - 1) _)
]

task_at-link_last :
    (s : Pool) (tasks : List Task) (i : ℕ)
    → length tasks ≡ pool_size
    → s.count < pool_size
    → task_at (link_last s tasks) i ≡ (
        if s.count == 0
        then (if i == 0 then record (task_at tasks i) { next = none } else task_at tasks i)
        else (if suc i == s.count
            then record (task_at tasks i) { next = some s.count }
            else task_at tasks i))
task_at-link_last s tasks i size room = elim (Bool-cases (s.count == 0)) [
  | inl first ↦ rw first (
      ground (
        arith,
        get_or-set tasks 0 i (record (task_at tasks 0) { next = none }) blank (omega arith),
      ))
  | inr later ↦ rw later (
      ground (
        arith,
        get_or-set tasks (s.count - 1) i
            (record (task_at tasks (s.count - 1)) { next = some s.count }) blank (omega arith),
      ))
]

-- All entries after a call that finds room: the new task comes last, and the one before links to it.
pub task_at-createtask :
    {s : Pool} (function : ℕ) (level : Level)
    → IsLinked s
    → s.count < pool_size
    → (i : ℕ)
    → task_at (createtask s function level).tasks i ≡ (
        if i == s.count
        then new_task s.count function level
        else if suc i == s.count
        then record (task_at s.tasks i) { next = some s.count }
        else task_at s.tasks i)
unfolding createtask
task_at-createtask {s} function level v room i = rw test (
    task_at-link_last s written i (length-set s.tasks s.count _ ∙ v.size) room
    ∙ ground (arith, at, v.unused s.count))
  where
    test : leb pool_size s.count ≡ false
    test = ground arith

    entry : Task
    entry = record (task_at s.tasks s.count) {
      pid = s.count + 1;
      level = level;
      stack_pointer = 0;
      timeslice = 5;
      function = function;
    }

    written : List Task
    written = set s.tasks s.count entry

    at : task_at written i ≡ (if s.count == i then entry else task_at s.tasks i)
    at = get_or-set s.tasks s.count i entry blank (omega (arith, v.size))

count-createtask :
    (s : Pool) (function : ℕ) (level : Level)
    → s.count < pool_size
    → (createtask s function level).count ≡ s.count + 1
unfolding createtask
count-createtask s function level room = ground arith

length-createtask :
    (s : Pool) (function : ℕ) (level : Level)
    → length (createtask s function level).tasks ≡ length s.tasks
unfolding createtask
length-createtask s function level = elim (Bool-cases (leb pool_size s.count)) [
  | inl full ↦ rw full
  | inr room ↦ rw room (length-link_last s _ ∙ length-set s.tasks s.count _)
]

-- A full pool is left alone.
createtask-full :
    (s : Pool) (function : ℕ) (level : Level)
    → pool_size ≤ s.count
    → createtask s function level ≡ s
unfolding createtask
createtask-full s function level full = ground arith

-- createtask keeps the pool a list of at most 64 tasks, numbered from 1 and linked in order, with
-- zeroed entries behind; a full pool is left alone.
pub createtask-IsLinked :
    {s : Pool} (function : ℕ) (level : Level) → IsLinked s → IsLinked (createtask s function level)
createtask-IsLinked {s} function level v = elim (Bool-cases (leb pool_size s.count)) [
  | inl full ↦ rw (createtask-full s function level (leb→le _ _ full)) v
  | inr free ↦
      let room : s.count < pool_size = ground arith in
      let more = count-createtask s function level room in
      record {
        size = length-createtask s function level ∙ v.size;
        fits = omega (arith, more);
        entry = λ i h. ground (arith, more, task_at-createtask function level v room i, v.entry i);
        unused =
            λ i h. ground (arith, more, task_at-createtask function level v room i, v.unused i);
      }
]
