-- ===== src/TelegramFs.antt =====
-- The module tgfs of telegram-fs/kmodule: the calls of the kernel, the bus and the chats.
pub mod Kernel
pub mod Bus
pub mod Chat
pub mod Module
pub mod System
pub mod Sample
mod Tests
