-- ===== src/Scheduler/Runs/Ended.antt =====
-- How a run ends, whatever others do to its row while its action runs.
use uv_agent.Common.{ℕ, ◌≡◌, true, none, some, ◌==◌, All}
use uv_agent.Common.Text.{Text}
use uv_agent.Common.Outcome.{Outcome, raised, returned}
use uv_agent.Scheduler.Error.{Error, not_sortable, interrupted}
use uv_agent.Scheduler.Tables.{Run, RunStatus, completed, failed, Db}
use uv_agent.Scheduler.Runs.{Called, ActionEnd, value, failure, cancelled_task, Response}

module _ (caller : Text → Text → Called) (message : Error → Text) where
  -- A row of the run has the status `status`, and the time of its end.
  abbrev pub EndedAs : ℕ → RunStatus → ℕ → Run → Type 0
  EndedAs run_id status now run =
      (run.run_id == run_id) ≡ true → (run.status ≡ status) × (run.completed_at ≡ some now)

module _ (caller : Text → Text → Called) (message : Error → Text) (run_id now : ℕ) where
  -- How a run comes to its end, by how its action ended: `begun` are the tables at that time.
  pub Concludes : ActionEnd → (begun : Db) → Db × Outcome Error Response → Type 0
  Concludes (failure error) begun (last, outcome) =
      (response : Response) × (outcome ≡ returned response)
      × (response.status ≡ failed)
      × (response.error ≡ some error)
      × All (EndedAs caller message run_id failed now) last.schedule_runs
  Concludes (value (some dumped) workflow_id) begun (last, outcome) =
      (response : Response) × (outcome ≡ returned response)
      × (response.status ≡ completed)
      × (response.result ≡ some dumped)
      × All (EndedAs caller message run_id completed now) last.schedule_runs
  Concludes (value none workflow_id) begun (last, outcome) =
      (outcome ≡ raised not_sortable) × (last ≡ begun)
  Concludes cancelled_task begun (last, outcome) = (outcome ≡ raised interrupted) × (last ≡ begun)
