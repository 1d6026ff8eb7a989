-- ===== src/Response.antt =====
-- src/response: the list of blocked addresses (block_list.h, block_list.cpp) and the whitelist
-- (whitelist.h, whitelist.cpp).
pub mod BlockList
pub mod Whitelist
mod Tests
