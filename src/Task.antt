-- ===== src/Task.antt =====
-- task/task.go and task/govenor_command.go: cron expressions, the next run time of a schedule,
-- tasks and their errors, the task manager.
pub mod Time
pub mod Word
pub mod Spec
pub mod Schedule
pub mod Runner
pub mod Loop
mod Examples
