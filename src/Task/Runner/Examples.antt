-- ===== src/Task/Runner/Examples.antt =====
-- The theorems on tasks and their manager at concrete inputs.
use beego.Common.{
  ◌≡◌, refl, suc, ◌+◌, ◌%◌, true, [], ◌∷◌, some, none, replicate, length, get_elem?, arith, codes,
}
use beego.Common.Int.{pos}
use beego.Common.Dict.{lookup}
use beego.Common.Outcome.{ok}
use beego.Task.Time.{Time, IsTime, zero_time, days_in}
use beego.Task.Word.{one_shl, star_bit}
use beego.Task.Spec.{Schedule}
use beego.Task.Schedule.{upcoming}
use beego.Task.Schedule.Next.{Answers}
use beego.Task.Runner.{Task, run, TaskManager, add_task, set_tasks_start_time}
use beego.Task.Runner.Effects.{AllSet, run_lem, set_tasks_start_time_lem, add_task_lem}

abbrev noon : Time
noon = record {
  year = 2024;
  month = 3;
  day = 29;
  hour = 12;
  minute = 0;
  second = 0;
  nanosecond = 5;
}

noon-IsTime : IsTime noon
unfolding days_in
noon-IsTime = omega arith

abbrev new_year : Schedule
new_year = record {
  second = one_shl 0;
  minute = one_shl 0;
  hour = one_shl 0;
  day = one_shl 1;
  month = one_shl 1;
  week = star_bit;
}

abbrev failing : Task
failing = record {
  address = 7;
  taskname = codes "mail";
  spec = new_year;
  spec_str = codes "@yearly";
  prev_time = zero_time;
  next_time = noon;
  timeout = pos 0;
  errlist = replicate 3 none;
  err_limit = 3;
  err_cnt = 4;
}

abbrev manager : TaskManager
manager = record { admin_task_list = (codes "mail", failing) ∷ []; changed = 0; started = true }

run_lem_example :
    (t' : Task) × (run failing (some (codes "down")) ≡ ok t')
    × (get_elem? t'.errlist (4 % suc 2) ≡ some (some (record { t = noon; errinfo = codes "down" })))
    × (get_elem? t'.errlist 0 ≡ get_elem? failing.errlist 0)
    × (length t'.errlist ≡ length failing.errlist)
    × (t'.err_cnt ≡ 5)
run_lem_example = run_lem failing (codes "down") 2 0 refl (omega arith) (λ e. omega arith)

set_tasks_start_time_lem_example :
    (m' : TaskManager) × (set_tasks_start_time noon manager ≡ ok m')
    × AllSet noon manager.admin_task_list m'.admin_task_list
    × (m'.started ≡ true)
set_tasks_start_time_lem_example = set_tasks_start_time_lem noon manager noon-IsTime

add_task_lem_example :
    (m' : TaskManager) × (r : Time) × (add_task noon manager (codes "log") failing ≡ ok m')
    × (lookup (codes "log") m'.admin_task_list ≡ some (record failing { next_time = r }))
    × Answers new_year noon ((upcoming noon).year + 5) r
    × (lookup (codes "mail") m'.admin_task_list ≡ some (record failing { next_time = r }))
    × (m'.changed ≡ 1)
unfolding lookup
add_task_lem_example =
    add_task_lem noon manager (codes "log") (codes "mail") failing noon-IsTime refl
