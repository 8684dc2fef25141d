-- ===== src/Router.antt =====
-- plugins/openclaw-bot-chat/src/router/message.ts: from the received payload to the agent's request,
-- and from its response to the published payload.
pub mod Inbound
pub mod Mentions
pub mod Context
pub mod Attachments
pub mod Outbound
pub mod Echo
pub mod Scanned
pub mod Grouped
pub mod Listed
pub mod Mentioned
pub mod ReplyTopic
pub mod Direct
