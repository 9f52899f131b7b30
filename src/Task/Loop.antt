-- ===== src/Task/Loop.antt =====
-- task/task.go: what a task tells of itself, the order of the tasks by `MapSorter`, and one pass over the tasks
-- that are due. `sort.Sort` and the loop of `run` around them are not modelled.
use beego.Common.{
  ℕ, ltb, ◌==◌, Bool, true, false, ◌&&◌, if◌then◌else◌, List, [], ◌∷◌, ◌++◌, Option, none, some,
  Text, codes,
}
use beego.Common.Int.{ℤ}
use beego.Common.Dict.{Dict}
use beego.Common.Outcome.{Outcome, ok, ◌>>=◌}
use beego.Task.Time.{Time, zero_time}
use beego.Task.Word.{Failure}
use beego.Task.Runner.{TaskErr, Task, set_next, set_prev}

unfoldable pub get_spec : Task → Text
get_spec t = t.spec_str

unfoldable pub get_next : Task → Time
get_next t = t.next_time

unfoldable pub get_prev : Task → Time
get_prev t = t.prev_time

unfoldable pub get_timeout : Task → ℤ
get_timeout t = t.timeout

-- `GetStatus`, by `Time.String`.
unfoldable pub status_of : (Time → Text) → List (Option TaskErr) → Text
status_of show [] = []
status_of show (none ∷ errs) = status_of show errs
status_of show (some v ∷ errs) =
    show v.t ++ codes ":" ++ v.errinfo ++ codes "<br>" ++ status_of show errs

unfoldable pub get_status : (Time → Text) → Task → Text
get_status show t = status_of show t.errlist

unfoldable pub time_eq : Time → Time → Bool
time_eq s t =
    (s.year == t.year)
    && (s.month == t.month)
    && (s.day == t.day)
    && (s.hour == t.hour)
    && (s.minute == t.minute)
    && (s.second == t.second)
    && (s.nanosecond == t.nanosecond)

-- `Time.Before`, field by field.
abbrev earlier : List (ℕ × ℕ) → Bool
earlier [] = false
earlier ((a, b) ∷ fields) = if a == b then earlier fields else ltb a b

unfoldable pub before : Time → Time → Bool
before s t = earlier (
    (s.year, t.year)
    ∷ (s.month, t.month)
    ∷ (s.day, t.day)
    ∷ (s.hour, t.hour)
    ∷ (s.minute, t.minute)
    ∷ (s.second, t.second)
    ∷ (s.nanosecond, t.nanosecond)
    ∷ [])

pub record MapSorter : Type 0 where
  pub keys : List Text
  pub vals : List Task

unfoldable pub new_map_sorter : Dict Task → MapSorter
new_map_sorter [] = record { keys = []; vals = [] }
new_map_sorter ((k, v) ∷ m) =
    let ms = new_map_sorter m in record { keys = k ∷ ms.keys; vals = v ∷ ms.vals }

-- `Less`, of the tasks at two places.
unfoldable pub less : Task → Task → Bool
less i j =
    if time_eq i.next_time zero_time
    then false
    else if time_eq j.next_time zero_time
    then true
    else before i.next_time j.next_time

-- `runNextTasks` over the sorted tasks: the tasks as they are then, and those whose runs it has started, each in a
-- goroutine, with the timeout of its context.
unfoldable pub run_next_tasks : Time → List Task → Outcome Failure (List Task × List (Task × ℤ))
run_next_tasks effective [] = ok ([], [])
run_next_tasks effective (e ∷ vals) =
    let rest = run_next_tasks effective vals in
    if time_eq e.next_time effective
    then set_next effective (set_prev e.next_time e)
      >>= (λ e'. rest >>= λ r. ok (e' ∷ r.0, (e, e.timeout) ∷ r.1))
    else ok (e ∷ vals, [])
