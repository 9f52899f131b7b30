-- ===== src/Task/Runner/Effects.antt =====
-- task/task.go: what the calls of a task and of the task manager do.
use beego.Common.{
  ℕ, suc, ◌+◌, ◌%◌, ◌≤◌, ◌<◌, ltb, ◌≡◌, ◌≢◌, refl, ◌==◌, ◌∙◌, Option, none, true, false,
  if◌then◌else◌, [], ◌∷◌, some, arith, Text, text_eq, text_eq_refl, length, set, get_elem?,
  length-set, get_elem?-set_self, get_elem?-set_ne,
}
use beego.Common.Dict.{Dict, lookup, insert, lookup-insert}
use beego.Common.Outcome.{ok}
use beego.Task.Time.{Time, IsTime}
use beego.Task.Schedule.{upcoming}
use beego.Task.Schedule.Next.{Answers, next-Answers}
use beego.Task.Runner.{
  Task, run, store_at, enough, set_next, signal, TaskManager, write_task, add_task, set_all,
  set_tasks_start_time,
}

abbrev stored : Task → Text → ℕ → Task
stored t errinfo limit = record t {
  errlist =
      set t.errlist (t.err_cnt % suc limit) (some (record { t = t.next_time; errinfo = errinfo }));
  err_cnt = suc t.err_cnt;
}

-- A run that fails, of a task whose list of errors has room for its limit: it returns, the error is stored in the
-- place of the oldest, with the time that the task was to run at, every other place keeps its error, and
-- the count grows by one.
pub run_lem :
    (t : Task) (errinfo : Text) (limit other : ℕ)
    → t.err_limit ≡ suc limit
    → suc limit ≤ length t.errlist
    → t.err_cnt % suc limit ≢ other
    → (t' : Task) × (run t (some errinfo) ≡ ok t')
      × (get_elem? t'.errlist (t.err_cnt % suc limit)
          ≡ some (some (record { t = t.next_time; errinfo = errinfo })))
      × (get_elem? t'.errlist other ≡ get_elem? t.errlist other)
      × (length t'.errlist ≡ length t.errlist)
      × (t'.err_cnt ≡ suc t.err_cnt)
unfolding run store_at
run_lem t errinfo limit other e room apart =
    let small : t.err_cnt % suc limit < length t.errlist = omega arith in
    let inside : ltb (t.err_cnt % suc limit) (length t.errlist) ≡ true = ground arith in
    (
      stored t errinfo limit,
      rw (store_at, e, inside) refl,
      get_elem?-set_self t.errlist (t.err_cnt % suc limit) _ small,
      get_elem?-set_ne t.errlist _ apart,
      length-set t.errlist (t.err_cnt % suc limit) _,
      refl,
    )

-- The tasks under their names, each with a next time that its schedule answers.
abbrev pub AllSet : Time → Dict Task → Dict Task → Type 0
AllSet now [] [] = Unit
AllSet now [] (_ ∷ _) = ⊥
AllSet now (_ ∷ _) [] = ⊥
AllSet now ((name, t) ∷ tasks) ((name', t') ∷ tasks') =
    ((name' ≡ name)
      × (t' ≡ record t { next_time = t'.next_time })
      × Answers t.spec now ((upcoming now).year + 5) t'.next_time)
    × AllSet now tasks tasks'

set_all_lem :
    (now : Time) (tasks : Dict Task)
    → IsTime now
    → (tasks' : Dict Task) × (set_all now tasks ≡ ok tasks') × AllSet now tasks tasks'
unfolding set_all set_next
set_all_lem now [] h = ([], refl, tt)
set_all_lem now ((name, t) ∷ tasks) h =
    let (r, e, answers) = next-Answers enough t.spec now h (omega arith) in
    let (tasks', e', all) = set_all_lem now tasks h in
    ((name, record t { next_time = r }) ∷ tasks', rw (e, e') refl, ((refl, refl, answers), all))

-- When the manager sets the times of its tasks, it ends, and every task, under its own name, gets as its next time
-- the first second after the time of the call at which its schedule fires, or the zero time where it fires
-- at no second up to the end of the fifth year after; nothing else of a task changes.
pub set_tasks_start_time_lem :
    (now : Time) (m : TaskManager)
    → IsTime now
    → (m' : TaskManager) × (set_tasks_start_time now m ≡ ok m')
      × AllSet now m.admin_task_list m'.admin_task_list
      × (m'.started ≡ m.started)
unfolding set_tasks_start_time
set_tasks_start_time_lem now m h =
    let (tasks, e, all) = set_all_lem now m.admin_task_list h in
    (record m { admin_task_list = tasks }, rw e refl, all, refl)

-- What stands under a name after a write through the address of `t`.
abbrev pub as_written : Task → Option Task → Option Task
as_written t none = none
as_written t (some s) = if s.address == t.address then some t else some s

lookup-write_task :
    (t : Task) (name : Text) (tasks : Dict Task)
    → lookup name (write_task t tasks) ≡ as_written t (lookup name tasks)
unfolding lookup write_task
lookup-write_task t name [] = refl
lookup-write_task t name ((k, s) ∷ tasks) = ground (arith, lookup-write_task t name tasks)

-- AddTask ends; the task is then under its name, with as its next time the first second after the time of the call at
-- which its schedule fires, or the zero time where it fires at no second up to the end of the fifth year
-- after; of the other names those that hold the same task, by its address, hold it with its new time,
-- and all others what they held; and a started manager has a signal more.
pub add_task_lem :
    (now : Time) (m : TaskManager) (name other : Text) (t : Task)
    → IsTime now
    → text_eq name other ≡ false
    → (m' : TaskManager) × (r : Time) × (add_task now m name t ≡ ok m')
      × (lookup name m'.admin_task_list ≡ some (record t { next_time = r }))
      × Answers t.spec now ((upcoming now).year + 5) r
      × (lookup other m'.admin_task_list
          ≡ as_written (record t { next_time = r }) (lookup other m.admin_task_list))
      × (m'.changed ≡ (if m.started then suc m.changed else m.changed))
unfolding add_task set_next
add_task_lem now m name other t h apart =
    let (r, e, answers) = next-Answers enough t.spec now h (omega arith) in
    let t' : Task = record t { next_time = r } in
    let tasks = write_task t' m.admin_task_list in
    (
      signal (record m { admin_task_list = insert name t' tasks }),
      r,
      rw e refl,
      rw (lookup-insert name name t' tasks, text_eq_refl name) refl,
      answers,
      lookup-insert name other t' tasks ∙ rw apart (lookup-write_task t' other m.admin_task_list),
      refl,
    )
