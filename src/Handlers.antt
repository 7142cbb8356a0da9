-- ===== src/Handlers.antt =====
-- src/handlers_utils.cpp, src/api_handler.h and src/api_handler.cpp: decoding of targets, tokens, and
-- the handlers of requests.
pub mod Text
pub mod Records
pub mod MapJson
pub mod Api
pub mod Game
pub mod Tokens
pub mod Decoding
pub mod Access
pub mod Authorized
pub mod Tests
