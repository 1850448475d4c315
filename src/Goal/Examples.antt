-- ===== src/Goal/Examples.antt =====
-- A thread with a goal and two tasks, and the theorem about its reset.
use uv_agent.Common.{◌≡◌, true, some, none, [], ◌∷◌, arith}
use uv_agent.Common.Text.{lit, strip}
use uv_agent.Goal.{Thread, Task, empty_state, state_of, reset_thread_goal}
use uv_agent.Goal.Reset.{state_of-reset}

abbrev first : Task
first = record {
  id = lit "goal_task_1";
  text = lit "write";
  status = lit "done";
  priority = none;
  created_at = 1;
  updated_at = 2;
}

abbrev second : Task
second = record first { id = lit "goal_task_2"; text = lit "test"; status = lit "todo" }

abbrev thread : Thread
thread = record {
  state =
      some (record empty_state { enabled = true; objective = lit "old"; notes = lit "half done" });
  tasks = record {
    documents =
        (record { doc_id = first.id; body = first; updated_at = 2 })
        ∷ (record { doc_id = second.id; body = second; updated_at = 1 })
        ∷ [];
    entries = [];
  };
}

state_of-reset_example : state_of (reset_thread_goal 5 (lit " new ") thread) ≡ record {
  stored = record empty_state {
    objective = strip (lit " new ");
    created_at = some 5;
    updated_at = some 5;
  };
  tasks = [];
}
state_of-reset_example = state_of-reset 5 (lit " new ") thread (omega arith)
