-- ===== src/Plugins.antt =====
-- internal/plugins: the chat plugins and what they share. The libraries of the chat services are
-- outside: what they deliver is an input, and the calls of them are a log.
pub mod Blocks
pub mod Command
pub mod Slack
pub mod Discord
pub mod Cli
pub mod Pressing
pub mod Buttons
mod Examples
