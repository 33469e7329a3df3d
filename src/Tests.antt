-- ===== src/Tests.antt =====
-- The theorems at concrete inputs, and runs of the model.
mod Sound
mod Texts
mod Requests
mod Responses
mod Timers
mod Wire
mod Services
mod Sockets
mod Files
mod Sharing
mod Pool
mod Loops
mod Leaving
mod Servers
mod Handlers
mod Dates
mod Mains
