-- ===== src/Tests.antt =====
-- Runs of the model on small inputs, and its theorems at concrete data.
mod Machines
mod KeyPairs
mod Servers
mod Mains
mod Streams
mod Configurations
mod Commands
mod Bundles
mod Proxies
mod Datagrams
mod Setups
mod Shells
mod Daemons
mod Processes
