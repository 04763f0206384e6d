-- ===== src/Tests.antt =====
-- Concrete parameters, runs of the definitions, and instances of the theorems.
mod Commands
mod Devices
mod Examples
mod Goroutines
mod Logging
mod Exchange
mod LocalNets
mod NetLines
mod Reconciliation
mod Resources
mod Settings
mod System
