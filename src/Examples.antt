-- ===== src/Examples.antt =====
-- The theorems at concrete inputs, and runs of the code.
mod Negotiation
mod Packets
mod Limits
mod Clock
mod Reference
mod Commands
mod Requests
mod Synchronisation
mod Threading
mod Startup
mod Sockets
mod Frequencies
