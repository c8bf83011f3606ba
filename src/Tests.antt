-- ===== src/Tests.antt =====
-- Tests by evaluation, and the theorems of the components at concrete inputs.
mod Environments
mod Shared
mod Hosts
mod Logs
mod Timers
mod Buffers
mod Hostlists
mod StringArrays
mod Proxies
mod Words
mod Messages
mod Bits
mod Numbers
mod Names
