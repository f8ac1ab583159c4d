-- ===== src/Tests.antt =====
-- Examples, and what the theorems say of them.
mod Decoding
mod Sensors
mod Stations
mod Publishing
mod Clients
mod Links
mod Starts
mod Systems
mod Devices
mod PowerUps
mod Arrivals
mod Queues
mod Locks
mod Lives
