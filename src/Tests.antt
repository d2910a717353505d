-- ===== src/Tests.antt =====
-- The theorems at concrete inputs, and runs of the definitions.
mod Channel
mod Writers
mod Errors
mod Flights
mod Calls
mod Conversations
mod Systems
mod Sessions
mod Http
mod Curl
mod Levels
mod Websocket
mod Conditions
mod Agents
mod Reconnects
mod Frames
mod Entries
mod AliLog
mod Traces
mod Exits
mod Channels
mod Loggers
mod Starts
