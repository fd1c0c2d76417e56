-- ===== src/Task.antt =====
-- `Task` of src/domain/task.rs and its status transitions. Identifiers are numbers; the identifier and
-- the instant that a constructor draws are arguments.

use ah.Chrono.{Chrono}
use ah.Base.{ℕ, ◌+◌, ◌%◌, ◌^◌, Bool, true, false, Option, none, some, Text, []}
use ah.Errors
use ah.Errors.{ExecutionError, FailureReason}

-- `WaitingReason` of src/domain/message.rs.
pub data WaitingReason : Type 0 where
  agent user retry_backoff approval summarization tool_execution : WaitingReason
  sub_task_batch : ℕ → WaitingReason
  chat_agent ask_user background_jobs : WaitingReason

pub data TaskStatus : Type 0 where
  pending ready running : TaskStatus
  waiting : WaitingReason → TaskStatus
  done : TaskStatus
  failed : FailureReason → TaskStatus

unfoldable pub is_terminal : TaskStatus → Bool
is_terminal done = true
is_terminal (failed reason) = true
is_terminal _ = false

pub data FrontendKind : Type 0 where
  tui telegram web qq client : FrontendKind

pub record ChannelId : Type 0 where
  pub frontend : FrontendKind
  pub user_id : Text
  pub thread_id : Option Text

pub record TaskRoutingPolicy : Type 0 where
  pub output_channel : Option ChannelId
  pub approval_channel : Option ChannelId
  pub approval_context : Option Text

unfoldable pub conversational : ChannelId → TaskRoutingPolicy
conversational channel = record {
  output_channel = some channel;
  approval_channel = some channel;
  approval_context = none;
}

unfoldable pub event : Option ChannelId → Option Text → TaskRoutingPolicy
event approval_channel approval_context = record {
  output_channel = none;
  approval_channel = approval_channel;
  approval_context = approval_context;
}

unfoldable pub scheduled_task : Option ChannelId → Text → TaskRoutingPolicy
scheduled_task output_channel approval_context = record {
  output_channel = output_channel;
  approval_channel = output_channel;
  approval_context = some approval_context;
}

pub record Task : Type 0 where
  pub id : ℕ
  pub content : Text
  pub creator : ℕ
  pub delegate : Option ℕ
  pub status : TaskStatus
  pub pending_confirmation_id : Option ℕ
  pub input_summary : Text
  pub result_summary : Text
  pub priority : ℕ
  pub created_at : ℕ
  pub updated_at : ℕ
  pub retry_count : ℕ
  pub max_retries : ℕ
  pub next_retry_at : Option ℕ
  pub last_error : Option Text
  pub multi_turn : Bool
  pub parent_task_id : Option ℕ
  pub batch_id : Option ℕ
  pub origin_channel : Option ChannelId
  pub routing_policy : TaskRoutingPolicy

-- `AgentId::nil()`.
abbrev pub nil_agent : ℕ
nil_agent = 0

unfoldable pub or_else : Option ChannelId → Option ChannelId → Option ChannelId
or_else none other = other
or_else (some channel) other = some channel

unfoldable pub delivery_channel : Task → Option ChannelId
unfolding or_else
delivery_channel t = or_else t.routing_policy.output_channel t.origin_channel

unfoldable pub from_trigger : ℕ → ℕ → Text → ℕ → TaskRoutingPolicy → Task
from_trigger id now content max_retries routing_policy = record {
  id = id;
  content = content;
  creator = nil_agent;
  delegate = none;
  status = pending;
  pending_confirmation_id = none;
  input_summary = [];
  result_summary = [];
  priority = 0;
  created_at = now;
  updated_at = now;
  retry_count = 0;
  max_retries = max_retries;
  next_retry_at = none;
  last_error = none;
  multi_turn = false;
  parent_task_id = none;
  batch_id = none;
  origin_channel = none;
  routing_policy = routing_policy;
}

unfoldable pub from_user_input : ℕ → ℕ → Text → ℕ → ChannelId → Task
unfolding from_trigger conversational
from_user_input id now content max_retries channel =
    record (from_trigger id now content max_retries (conversational channel)) {
      multi_turn = true;
      origin_channel = some channel;
    }

unfoldable pub from_user_input_ready : ℕ → ℕ → Text → ℕ → ChannelId → Task
unfolding from_trigger conversational
from_user_input_ready id now content max_retries channel =
    record (from_trigger id now content max_retries (conversational channel)) {
      status = ready;
      input_summary = content;
      origin_channel = some channel;
    }

unfoldable pub mark_waiting : Task → WaitingReason → ℕ → Task
mark_waiting t reason now = record t { status = waiting reason; updated_at = now }

unfoldable pub mark_waiting_for_agent : Task → ℕ → ℕ → Task
mark_waiting_for_agent t agent_id now = record t {
  delegate = some agent_id;
  status = waiting agent;
  updated_at = now;
}

unfoldable pub mark_running : Task → ℕ → Task
mark_running t now = record t { status = running; updated_at = now }

done_unless : TaskStatus → Task → Text → ℕ → Task
done_unless done t result now = t
done_unless _ t result now = record t {
  status = done;
  result_summary = result;
  updated_at = now;
  next_retry_at = none;
  last_error = none;
}

unfoldable pub mark_done : Task → Text → ℕ → Task
unfolding done_unless
mark_done t result now = done_unless t.status t result now

unfoldable pub delay_ticks : Chrono → Option ℕ → ℕ
delay_ticks chrono none = chrono.seconds 1
delay_ticks chrono (some ticks) = ticks

-- The counter is a `u32` and wraps as in a release build.
unfoldable pub schedule_retry : Chrono → Task → ExecutionError → ℕ → Task
unfolding delay_ticks
schedule_retry chrono t error now =
    let retry_count = (t.retry_count + 1) % 2 ^ 32 in
    let delay = delay_ticks chrono (chrono.from_std (Errors.retry_delay error retry_count)) in
    record t {
      retry_count = retry_count;
      next_retry_at = some (now + delay);
      last_error = some (Errors.message error);
      status = waiting retry_backoff;
      updated_at = now;
    }

unfoldable pub mark_failed : Task → ExecutionError → ℕ → Task
mark_failed t error now = record t {
  last_error = some (Errors.message error);
  status = failed (Errors.to_failure_reason error);
  updated_at = now;
}

unfoldable pub mark_failed_reason : Task → FailureReason → Text → ℕ → Task
mark_failed_reason t reason error now = record t {
  last_error = some error;
  status = failed reason;
  updated_at = now;
}

unfoldable pub mark_ready : Task → ℕ → Task
mark_ready t now = record t { status = ready; updated_at = now }

unfoldable pub mark_ready_for_retry : Task → ℕ → Task
mark_ready_for_retry t now = record t { status = ready; next_retry_at = none; updated_at = now }
