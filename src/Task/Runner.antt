-- ===== src/Task/Runner.antt =====
-- task/task.go: `Task` with its errors and times, and the calls of `taskManager` that change its tasks.
-- A method takes the time of its call to `time.Now`; the lock makes it one step. A signal on the channel
-- `changed` is sent by a goroutine of its own, so that `changed` counts those on their way.
pub mod Effects
mod Examples
use beego.Common.{
  ℕ, zero, suc, ◌%◌, ◌==◌, ltb, Bool, true, false, if◌then◌else◌, List, [], ◌∷◌, ◌++◌, Option, none,
  some, Text, codes, length, replicate, set,
}
use beego.Common.Int.{ℤ, pos}
use beego.Common.Dict.{Dict, insert, erase}
use beego.Common.Outcome.{Outcome, ok, panic, ◌>>=◌}
use beego.Task.Time.{Time, zero_time}
use beego.Task.Word.{Failure}
use beego.Task.Spec.{Schedule, parse}
use beego.Task.Schedule.{next}

pub record TaskErr : Type 0 where
  pub t : Time
  pub errinfo : Text

-- A `*Task` is known by its `address`.
pub record Task : Type 0 where
  pub address : ℕ
  pub taskname : Text
  pub spec : Schedule
  pub spec_str : Text
  pub prev_time : Time
  pub next_time : Time
  pub timeout : ℤ
  pub errlist : List (Option TaskErr)
  pub err_limit : ℕ
  pub err_cnt : ℕ

-- `NewTask` without options, at a new address, the parser running on the given fuel.
unfoldable pub new_task : ℕ → ℕ → Text → Text → Outcome Failure Task
new_task address fuel tname spec = parse fuel spec >>= λ s. ok (record {
  address = address;
  taskname = tname;
  spec = s;
  spec_str = spec;
  prev_time = zero_time;
  next_time = zero_time;
  timeout = pos 0;
  errlist = replicate 100 none;
  err_limit = 100;
  err_cnt = 0;
})

abbrev pub timeout_option : ℤ → Task → Task
timeout_option timeout t = record t { timeout = timeout }

pub data RunFailure : Type 0 where
  divide_by_zero index_out_of_range : RunFailure

-- The error of a run, written at the place that the count of errors has come to, by the limit.
store_at : ℕ → Task → Text → Outcome RunFailure Task
store_at zero t errinfo = panic divide_by_zero
store_at (suc n) t errinfo =
    let index = t.err_cnt % suc n in
    if ltb index (length t.errlist)
    then ok (record t {
      errlist = set t.errlist index (some (record { t = t.next_time; errinfo = errinfo }));
      err_cnt = suc t.err_cnt;
    })
    else panic index_out_of_range

-- `Run`, by what `DoFunc` returned, `none` for nil.
unfoldable pub run : Task → Option Text → Outcome RunFailure Task
unfolding store_at
run t none = ok t
run t (some errinfo) = store_at t.err_limit t errinfo

-- The fuel that `Schedule.Next` needs.
abbrev pub enough : ℕ
enough = 4_492_801

unfoldable pub set_next : Time → Task → Outcome Failure Task
set_next now t = next enough t.spec now >>= λ r. ok (record t { next_time = r })

unfoldable pub set_prev : Time → Task → Task
set_prev now t = record t { prev_time = now }

pub record TaskManager : Type 0 where
  pub admin_task_list : Dict Task
  pub changed : ℕ
  pub started : Bool

abbrev pub new_task_manager : TaskManager
new_task_manager = record { admin_task_list = []; changed = 0; started = false }

-- The signal that the tasks of a started manager have changed.
abbrev pub signal : TaskManager → TaskManager
signal m = record m { changed = if m.started then suc m.changed else m.changed }

-- A write through a `*Task`, which the map may hold under several names.
unfoldable pub write_task : Task → Dict Task → Dict Task
write_task t [] = []
write_task t ((name, s) ∷ tasks) =
    let rest = write_task t tasks in
    if s.address == t.address then (name, t) ∷ rest else (name, s) ∷ rest

unfoldable pub add_task : Time → TaskManager → Text → Task → Outcome Failure TaskManager
add_task now m taskname t = set_next now t >>= λ t'.
    ok
      (signal (record m { admin_task_list = insert taskname t' (write_task t' m.admin_task_list) }))

unfoldable pub delete_task : TaskManager → Text → TaskManager
delete_task m taskname = signal (record m { admin_task_list = erase taskname m.admin_task_list })

unfoldable pub clear_task : TaskManager → TaskManager
clear_task m = signal (record m { admin_task_list = [] })

unfoldable pub set_all : Time → Dict Task → Outcome Failure (Dict Task)
set_all now [] = ok []
set_all now ((name, t) ∷ tasks) =
    set_next now t >>= λ t'. set_all now tasks >>= λ tasks'. ok ((name, t') ∷ tasks')

unfoldable pub set_tasks_start_time : Time → TaskManager → Outcome Failure TaskManager
set_tasks_start_time now m =
    set_all now m.admin_task_list >>= λ tasks. ok (record m { admin_task_list = tasks })

unfoldable pub mark_manager_stop : TaskManager → TaskManager
mark_manager_stop m = record m { started = false }

-- `StartTask`, and whether it starts the loop of `run`.
unfoldable pub start_task : TaskManager → TaskManager × Bool
start_task m = if m.started then (m, false) else (record m { started = true }, true)
