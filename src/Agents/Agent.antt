-- ===== src/Agents/Agent.antt =====
-- The rows of the table `agents` in daemon/src/agents/lifecycle.ts.
use kithkit.Base.{ℕ, String, Bool, true, false, Option}

pub data AgentType : Type 0 where
  comms orchestrator worker : AgentType

pub data AgentStatus : Type 0 where
  idle busy running stopped crashed queued : AgentStatus

-- `state` holds the id that the SDK gave to the worker.
pub record AgentRecord : Type 0 where
  pub kind : AgentType
  pub profile : Option String
  pub status : AgentStatus
  pub started_at : Option ℕ
  pub last_activity : Option ℕ
  pub state : Option String
  pub created_at : ℕ
  pub updated_at : ℕ

-- The statuses that `countRunningAgents` counts.
abbrev pub is_active : AgentStatus → Bool
is_active idle = true
is_active busy = true
is_active running = true
is_active stopped = false
is_active crashed = false
is_active queued = false

abbrev pub is_running : AgentStatus → Bool
is_running running = true
is_running _ = false

-- The statuses that the cleanup of orphans selects.
abbrev pub is_orphan : AgentStatus → Bool
is_orphan queued = true
is_orphan s = is_active s
