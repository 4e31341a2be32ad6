-- ===== src/Server.antt =====
-- The MCP server of src/server.py above the SIP modules: the names of its tools, the tools of each phone
-- (src/phone_tool_factory.py), and the loading of a profile.
pub mod Names
pub mod Apart
pub mod Phones
pub mod Registry
pub mod Offered
pub mod Synced
pub mod Effects
pub mod Loading
pub mod Profile
pub mod Accepted
pub mod Tests
