-- ===== src/Examples/Runs.antt =====
-- Examples of what every run keeps.
use etask.Base.{◌≡◌, ◌≤◌, refl, inl, inr, Member}
use etask.Domain.Status.{is_terminal_status}
use etask.Domain.Execution.{TaskExecution}
use etask.Store.{World}
use etask.System.Runs.{reported, perform, begins, performs, waits}
use etask.System.Safety.{
  terminal_executions_stand, executions_keep_snapshot, version_never_falls, version_locks_task,
}
use etask.Examples.Sample.{
  busy, busy-IsSound, late_report, ended_execution, running_execution, held_task,
}

abbrev after_late_report : World
after_late_report = perform (reported late_report) busy

abbrev later : World
later = record busy { now = 2000 }

terminal_executions_stand_example : Member ended_execution after_late_report.executions
unfolding is_terminal_status
terminal_executions_stand_example =
    terminal_executions_stand busy after_late_report (performs begins (reported late_report))
      busy-IsSound ended_execution (inr (inl refl)) refl

executions_keep_snapshot_example :
    (e : TaskExecution) × Member e after_late_report.executions
    × (e.snapshot ≡ running_execution.snapshot)
executions_keep_snapshot_example =
    executions_keep_snapshot busy after_late_report (performs begins (reported late_report))
      busy-IsSound running_execution (inl refl)

version_never_falls_example : 3 ≤ 3
version_never_falls_example =
    version_never_falls busy later (waits begins 1000) busy-IsSound held_task held_task (inl refl)
      (inl refl) refl

version_locks_task_example :
    held_task ≡ record held_task { exec_mode = held_task.exec_mode; utime = held_task.utime }
version_locks_task_example =
    version_locks_task busy later (waits begins 1000) busy-IsSound held_task held_task (inl refl)
      (inl refl) refl refl
