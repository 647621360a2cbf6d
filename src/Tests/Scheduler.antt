-- ===== src/Tests/Scheduler.antt =====
-- kernel/scheduler at small inputs.
use unos_kernel.Prelude.{
  ℕ, zero, suc, ◌<◌, ◌≡◌, refl, some, List, [], ◌∷◌, arith, min, replicate, length-replicate,
  get_or,
}
use unos_kernel.Scheduler.{Level, Pool, Run, blank, task_at, createtask, dotask, is_function_valid}
use unos_kernel.Scheduler.Create.{IsLinked, createtask-IsLinked}
use unos_kernel.Scheduler.Dotask.{IsOrdinary, functions_from, dotask-functions}
use unos_kernel.Scheduler.Starve.{IsUrgent, dotask-starves}

abbrev functions : List ℕ
functions = 11 ∷ 12 ∷ 13 ∷ []

abbrev empty : Pool
empty = record { tasks = replicate 64 blank; count = 0 }

get_or-replicate_self : (n i : ℕ) → get_or (replicate n blank) i blank ≡ blank
get_or-replicate_self zero i = refl
get_or-replicate_self (suc n) zero = refl
get_or-replicate_self (suc n) (suc i) = get_or-replicate_self n i

empty-IsLinked : IsLinked empty
empty-IsLinked = record {
  size = length-replicate 64 blank;
  fits = omega arith;
  entry = λ i h. absurd (omega arith);
  unused = λ i h. get_or-replicate_self 64 i;
}

createtask-IsLinked_example : IsLinked (createtask empty 11 Level.ready)
createtask-IsLinked_example = createtask-IsLinked 11 Level.ready empty-IsLinked

two_tasks : Pool
two_tasks = createtask (createtask empty 11 Level.ready) 12 Level.waiting

two_tasks-IsLinked : IsLinked two_tasks
unfolding two_tasks
two_tasks-IsLinked =
    createtask-IsLinked 12 Level.waiting (createtask-IsLinked 11 Level.ready empty-IsLinked)

two_tasks-IsOrdinary :
    (i : ℕ) → i < two_tasks.count → IsOrdinary functions (task_at two_tasks.tasks i)
unfolding two_tasks createtask is_function_valid
two_tasks-IsOrdinary zero h = record {
  not_running = refl;
  not_terminated = refl;
  not_priority = refl;
  not_null = λ e. absurd (omega arith);
  valid = refl;
}
two_tasks-IsOrdinary (suc zero) h = record {
  not_running = refl;
  not_terminated = refl;
  not_priority = refl;
  not_null = λ e. absurd (omega arith);
  valid = refl;
}
two_tasks-IsOrdinary (suc (suc i)) h = absurd (omega arith)

dotask-functions_example :
    (r : Run) × (dotask functions two_tasks ≡ some r)
    × (r.trace ≡ functions_from two_tasks.tasks 0 (min 10 two_tasks.count))
dotask-functions_example =
    dotask-functions functions two_tasks two_tasks-IsLinked two_tasks-IsOrdinary

-- A priority task in front of a ready one.
rush_pool : Pool
rush_pool = createtask (createtask empty 13 Level.priority) 12 Level.ready

rush_pool-IsLinked : IsLinked rush_pool
unfolding rush_pool
rush_pool-IsLinked =
    createtask-IsLinked 12 Level.ready (createtask-IsLinked 13 Level.priority empty-IsLinked)

rush_pool-IsUrgent : IsUrgent functions (task_at rush_pool.tasks 0)
unfolding rush_pool createtask is_function_valid
rush_pool-IsUrgent = record { level = refl; not_null = λ e. absurd (omega arith); valid = refl }

rush_pool-IsOrdinary :
    (i : ℕ) → 0 < i → i < rush_pool.count → IsOrdinary functions (task_at rush_pool.tasks i)
unfolding rush_pool createtask is_function_valid
rush_pool-IsOrdinary zero h h' = absurd (omega arith)
rush_pool-IsOrdinary (suc zero) h h' = record {
  not_running = refl;
  not_terminated = refl;
  not_priority = refl;
  not_null = λ e. absurd (omega arith);
  valid = refl;
}
rush_pool-IsOrdinary (suc (suc i)) h h' = absurd (omega arith)

rush_pool-nonempty : 0 < rush_pool.count
unfolding rush_pool createtask
rush_pool-nonempty = omega arith

dotask-starves_example :
    (r : Run) × (dotask functions rush_pool ≡ some r)
    × (r.trace ≡ (task_at rush_pool.tasks 0).function ∷ (task_at rush_pool.tasks 0).function ∷ [])
dotask-starves_example =
    dotask-starves functions rush_pool rush_pool-IsLinked rush_pool-nonempty rush_pool-IsUrgent
      rush_pool-IsOrdinary
