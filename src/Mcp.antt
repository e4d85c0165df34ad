-- ===== src/Mcp.antt =====
-- mcp: JSON-RPC over a transport, the SSE transport, and the host that registers remote tools.
pub mod Rpc
pub mod Sse
pub mod Framing
pub mod Streams
pub mod Starting
pub mod Url
pub mod UrlParts
pub mod Host
pub mod Attach
pub mod Naming
pub mod Dialing
pub mod Stdio
pub mod Lines
