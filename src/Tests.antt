-- ===== src/Tests.antt =====
-- Concrete runs of the code, and the theorems at concrete inputs.
mod Sizes
mod Client
mod Solver
mod Streams
mod Buffers
mod Edges
mod Samples
mod Sockets
mod Retry
mod Cuts
mod Exchange
mod Posts
mod Clocks
mod Containers
mod Conserved
mod Feeds
