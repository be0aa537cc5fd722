-- ===== src/Proxy.antt =====
-- cmd/mct-docker-proxy: forwards one published port of a container.
pub mod Addr
pub mod Udp
pub mod Gateway
pub mod Tcp
pub mod Main
pub mod Sctp
pub mod Relay
