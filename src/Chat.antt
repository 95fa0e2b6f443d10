-- ===== src/Chat.antt =====
-- internal/chat: what the client decides without its terminal.
pub mod QueryClassify
