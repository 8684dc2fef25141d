-- ===== src/Client.antt =====
-- plugins/openclaw-bot-chat/src/client: what the plugin puts between itself and the broker.
pub mod Http
pub mod Mqtt
