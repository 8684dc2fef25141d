-- ===== src/Lib.antt =====
-- The bot plugin of openclaw-bot-chat, plugins/openclaw-bot-chat/src, as functions of its state, and
-- beside it the channel extension and the topics of the web client.
--
-- A chat service hands a bot its messages over MQTT. The plugin keeps one runtime per bot: it loads
-- its files, asks the service for a bootstrap answer, connects, subscribes and catches up on missed
-- messages (`start`); a payload that arrives becomes a message (`normalizeBotChatMessage`), is
-- filtered (`shouldProcessMessage`), gets a context and a permission check (`routeIncomingMessage`),
-- and is handled by a queued task that asks the agent, publishes the answer and saves a checkpoint
-- (`handleIncomingMessage`).
--
-- The files and the code they model, paths under plugins/openclaw-bot-chat/src,
-- or under extensions/openclaw-bot-chat/src for Extension and frontend/src for Web:
--   Base, Base/*         strings, maps, sets, sorting and integers of the language
--   Values               router/message.ts: JSON values, their readers, `mergeMeta`
--   Topics               router/message.ts: `parseRoute`, `buildReplyTopic`, `deriveDialogId`
--   Types                types/index.ts, types/channel.ts: the records, and the words for their kinds
--   Permissions          types/permissions.ts: allowlists, action switches, `checkPermission`
--   Router/Inbound       router/message.ts: `normalizeBotChatMessage`
--   Router/Mentions      router/message.ts: `shouldProcessMessage`, `getMentionedBotIds`
--   Router/Context       router/message.ts: `resolveChannelContextFromDialog`, `routeIncomingMessage`
--   Router/Attachments   router/message.ts: `toOpenClawRequest` and the attachments
--   Router/Outbound      router/message.ts: `toBotChatOutgoingMessage`, `toRealtimePublishPayload`
--   Channels             types/channel.ts: `ChannelState`
--   Stores               runtime/session.ts, runtime/checkpoint.ts: the two stores and their files
--   Runtime/State        runtime/bot.ts: the fields of `ManagedBotRuntime`, its host, calls that throw
--   Runtime/Processed    runtime/bot.ts: `markMessageProcessed`, `isMessageProcessed`
--   Runtime/Approval     runtime/bot.ts: `resolvePermissionApproval`
--   Runtime/Reply        runtime/bot.ts: `dispatchReply`, `publishPermissionDeniedNotice`
--   Runtime/Saving       runtime/bot.ts: `saveCheckpoint` and the lookups of a task
--   Runtime/Task         runtime/bot.ts: `handleIncomingMessage`
--   Runtime/Queues       runtime/bot.ts: `enqueueByDialog`, the queues of tasks
--   Runtime/Recovery     runtime/bot.ts: `recoverPendingMessages`, `filterRecoveredMessages`
--   Runtime/Start        runtime/bot.ts: `start`, `resolveSubscriptions`, `hydrateChannelState`
--   Runtime/Stop         runtime/bot.ts: `stop`
--   Runtime/Fleet        runtime/bot.ts: `OpenClawBotRuntime`, `sanitizeStateKey`
--   Config, Config/*     config.ts: the readers, `readBots`, `applyLegacyOverrides`, `loadConfig`
--   Client/Mqtt          client/mqtt.ts: `BotChatMqttClient`
--   Client/Http          client/http.ts: `BotChatHttpClient`
--   Extension/Targets    runtime.ts: `parseBotChatTarget`, topics, the target of an outbound message
--   Extension/Settings   runtime.ts: `normalizeBotChatConfig`, `evaluateBotChatAccess`
--   Extension/Messages   runtime.ts: `toInboundMessage`, `buildBotChatOutboundPayload`
--   Extension/Effects    runtime.ts: the state of `DefaultBotChatRuntime` and its surroundings
--   Extension/Runtime    runtime.ts: its messages in and out, `recoverHistory`
--   Extension/Starting   runtime.ts: its `start` and `stop`, `createApprover`, the retries
--   Extension/Attachments  channel.ts: `buildBotChatAttachments`, `buildBotChatGatewayBody`
--   Extension/Reply      channel.ts: `emitMessage`, `dispatchBotChatReply`, `sendText`
--   Web                  lib/chat.ts: `parseChatTopic`, `buildConversationFromTopic`
--   Examples/*           concrete inputs
-- The children of a module hold its theorems.
--
-- How the model stands to the code. A string is the list of its UTF-16 units, and white space is that
-- of `trim`. A number is an integer: fractions, and the rounding of integers above 2^53, are left out.
-- A value that may be undefined is an Option; an object lists its properties in order, and the order
-- that the language gives to keys that look like integers is left out. In `replaceAll` a `$` of the
-- replacement stands for itself. A method that changes `this` takes the state and gives it back; one
-- that may throw gives a `Result`, and keeps what it changed before the throw. All that is outside,
-- the service, the broker, the agent, the approver, the clock, the files and fresh identifiers, is
-- the record `Host`, a parameter: each call of it has a number, so that it may answer each call
-- differently. `toLocaleLowerCase` and `Date.parse` are the host's too.
--
-- There is no fuel, but for the extension's retries, which are three as in the source: every other
-- loop of the code runs over a list and is structural recursion here. The limit of the cache of
-- processed messages is the source's 2000.
--
-- The queues of tasks are a step relation of their own. A task of Runtime/Task runs as a whole, and
-- `handle_incoming_message` is the case of an empty queue.
--
-- The settings are read with the environment, the file and `path.resolve` as parameters; what an
-- object inherits from its prototype is left out, here as elsewhere. The MQTT client is a record whose
-- methods and handlers may run in any order, one at a time; the mqtt package opens and loses its
-- connection. The runtime of Runtime takes its own view of both clients from `Host`.
--
-- The extension is a second program for the same service: a channel of another host, with its own
-- runtime. Its operations run as wholes, against a record `World` that answers for the host's hook,
-- which is there, the approver, the broker, the files and the server; one operation sees one time and
-- one fresh identifier. What others see of it is the list of its effects. The hook of
-- Extension/Reply is such an operation of its own. A payload is the value that it is written from or
-- parses to.
--
-- Not modelled: the interleaving of tasks of different keys at their awaits; logging; of the
-- extension, the account's inspection and the other adapters to its host; of the web client,
-- what is not of topics and conversations; the iOS client and the backend, which are programs of their
-- own.
pub mod Base
pub mod Values
pub mod Topics
pub mod Permissions
pub mod Types
pub mod Config
pub mod Client
pub mod Extension
pub mod Web
pub mod Router
pub mod Channels
pub mod Stores
pub mod Runtime
pub mod Examples
