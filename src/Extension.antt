-- ===== src/Extension.antt =====
-- extensions/openclaw-bot-chat/src: the bot as a channel of another host, with its own runtime.
pub mod Targets
pub mod Settings
pub mod Messages
pub mod Effects
pub mod Runtime
pub mod Starting
pub mod Attachments
pub mod Reply
