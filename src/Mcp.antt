-- ===== src/Mcp.antt =====
-- packages/hcp-runner/src/mcp: the continuations of MCP tool calls that wait for input.
pub mod Inputs
