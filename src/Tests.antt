-- ===== src/Tests.antt =====
-- The theorems at concrete inputs, and tests of the definitions on these.
mod Tree
mod Data
mod Devices
mod Providers
mod Apple
mod App
mod Database
mod Sockets
mod Pools
mod Servers
mod System
mod Clients
mod Publish
mod Sessions
mod Connect
