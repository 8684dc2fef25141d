-- ===== src/Runtime.antt =====
-- `ManagedBotRuntime` of plugins/openclaw-bot-chat/src/runtime/bot.ts: its state and what it asks of
-- the host, the task of one message, the recovery of missed messages, and the start.
pub mod State
pub mod Processed
pub mod Approval
pub mod Reply
pub mod Saving
pub mod Task
pub mod Queues
pub mod Recovery
pub mod Start
pub mod Stop
pub mod Fleet
