-- ===== src/Lib.antt =====
-- Verification of the harness: an agent runtime that turns user input, triggers and scheduled
-- jobs into tasks, runs an agent loop for each session and delivers the results. The models are
-- pure functions that translate the Rust code operation by operation.
--
-- The parts, and how they interact:
--
--   Base      shared words: native numbers and their tests, lists, texts, removal of an element.
--   Chrono    the one thing the models take from the chrono crate, as a record of operations:
--             conversion of a number of seconds to a duration.
--   Inbox     src/domain/loop_control.rs, TaskInbox: the queue of a task in flight. Steers,
--             monitor notifications, hints and guidance are pushed while the loop runs and taken
--             out at its boundary. `push` is the whole method, merge and eviction included.
--   AutoWake  src/domain/loop_control.rs, AutoWakeBudget: the sliding window that limits how
--             often passive inbox items may wake an idle task.
--   Errors    src/domain/error.rs: ExecutionError, its retry policy and its mapping to a
--             FailureReason.
--   Task      src/domain/task.rs: the task record, its constructors and its transitions.
--   Retry     the life of a failed attempt across the systems, on one task at a time: the error
--             branch of src/systems/transform/llm_response.rs (`handle_failure`, which drops the late
--             errors of a terminal task), the deadline of src/systems/demand.rs (project, take_due),
--             the wake-up of src/systems/ingress.rs, the signal filter of
--             src/systems/transform/signal_ingest.rs and `retry_ready` of
--             src/systems/transform/task_lifecycle.rs. Retry.Flow composes them as the steps of a
--             run.
--   Memory    src/domain/memory.rs: conversation groups, the groups that may be compressed, the
--             text that is summarised and the drain of the summarised entries.
--   Protocol  src/domain/memory.rs, RuntimeConversation: the messages and tool results that are sent
--             back to the model, over the messages of src/domain/execution.rs. Protocol.Replay is
--             an independent machine that reads a conversation and accepts the tool protocol.
--   Ledger    src/infrastructure/schedules/store.rs: the ledger of the runs of a scheduled job, as
--             the bytes of its file; Ledger.Lines is the standard library's reading by lines.
--   Schedule  src/domain/schedule.rs: the definition of a scheduled job and the decision whether a
--             missed run is made up for.
--   Watchdog  src/domain/watchdog.rs: what the watchdog reads off a conversation of Protocol, and
--             which decisions of its reply are acted on. Watchdog.Actions and Watchdog.Blanks say
--             independently what suits a subject and what white space is.
--   Accounting  src/systems/schedule.rs, schedule_run_accounting_system: what is done once for each
--             scheduled run that ends, on top of Ledger and Schedule: its record, the health of the
--             schedule and the notices. `account` is a round of the system for one run.
--   Upkeep     the other systems of src/systems/schedule.rs: the start-up (start_up), the records of
--             triggers that were not run (expire_round), the end of one-shot schedules
--             (complete_once) and the saving of the definitions (persist). The ledger is the one
--             of Ledger, with the end of a write (written, rolled back, torn) as an input.
--   Delivery   src/systems/schedule_delivery.rs: the sends of a scheduled run and their receipts.
--             Accounting takes what pending_for, notified_for and failure_for say as inputs.
--   Timer      src/triggers/timer_scheduler.rs: the schedules that the timer keeps
--             (build_all_schedules), how long it sleeps (sleep_duration) and what it fires at the
--             end (wake), with the clock as an input.
--   Retention  src/systems/task_retention.rs: which trees of finished tasks are reclaimed, and which
--             conversations are finished because they are idle.
--   Telegram  src/channels/telegram.rs: the text of a message, from its Markdown to the parts that are
--             sent. Telegram has escape_html, strip_tags and decode_html_entities,
--             Telegram.Markdown markdown_to_telegram_html as rounds of its loop, Telegram.Split
--             split_text and split_html_safely with their searches, Telegram.Parts
--             split_markdown_semantic and prepare_text_parts. Telegram.Html describes the HTML
--             that may come out.
--   ModelChain  src/domain/model_chain.rs, ModelChainState: the model in use and its fallbacks.
--   Todos     src/domain/loop_control.rs: the check and the text of a task's progress list.
--
-- How the code is represented:
--
--   Struct and enum are record and data type with the source's names; a method that changes its
--   receiver returns the changed value. Session, task and trace ids are natural numbers, and so
--   are instants and durations, counted in nanoseconds from an origin before every instant used;
--   they have no upper end, but for the Instant of ModelChain and of the retry deadline, whose last
--   value is an argument. Texts are lists of UTF-8 bytes, so that a cut at a byte offset is
--   what it is in the source. u32 and u64 counters keep their width: sums and products that the
--   source does not saturate wrap, which is what a release build does. A Vec or VecDeque is a
--   list, front first. Each loop of the source is structural recursion on the list it walks.
--   The one exception is the walk over the firings of a cron expression (Schedule.latest_from), on
--   fuel: each firing is at least one instant later, so the distance from the start of the walk to
--   the present is enough.
--
--   In Telegram a text that the code walks by characters is the list of its code points, and
--   `encode` gives its bytes where the code measures or cuts a str. A slice at an index that is no
--   character boundary panics, which is an outcome of its own. The conversion of Markdown and the
--   two splitting loops run on fuel; the length of the text and one more is enough, since each round
--   and each recursion leaves less of the text, and the theorems show that it never runs out.
--
--   Code of other crates is a parameter: chrono's conversions of seconds (Chrono, and the argument
--   `seconds` of the sweeps in Retention), the last instant of std's Instant, the tokenizer of
--   tiktoken_rs, the JSON codec of a ledger line and the iterator of a cron expression. What a theorem
--   needs of them stands among its hypotheses.
--
-- Not modelled: the ECS scheduling of the systems and their logging, the runs without a
-- ScheduleStore, persistence but for the ledger and the outcome of a save, prompt texts, the channels
-- but for the text of Telegram, the terminal interface, tools, plugins and the LLM clients.
pub mod Base
pub mod Chrono
pub mod Inbox
pub mod AutoWake
pub mod Errors
pub mod Task
pub mod Retry
pub mod Memory
pub mod Protocol
pub mod Ledger
pub mod Schedule
pub mod Watchdog
pub mod Accounting
pub mod Retention
pub mod Upkeep
pub mod Delivery
pub mod Timer
pub mod Telegram
pub mod ModelChain
pub mod Todos
