-- ===== src/Tests.antt =====
-- Runs of the model on small inputs, one module for each part of the program.
pub mod Limits
pub mod Ports
pub mod Accounting
pub mod Nodes
pub mod Settings
pub mod Connections
pub mod Serving
pub mod Streams
pub mod Cores
pub mod Servers
