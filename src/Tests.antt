-- ===== src/Tests.antt =====
-- Tests of the definitions, and the theorems at concrete inputs, with the instances of Samples.
mod Proto
mod Daemon
mod Server
mod Sharing
mod Machines
mod Accounts
mod Client
mod Tunnels
mod Handlers
mod Grants
