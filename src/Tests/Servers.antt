-- ===== src/Tests/Servers.antt =====
-- An SCTP proxy with one client of which one copy has ended, and one that could not be connected.
use mactainer.Base.{true, false, [], ◌∷◌}
use mactainer.Proxy.Relay.{end_to_backend}
use mactainer.Proxy.Relay.Server.{Server}
use mactainer.Proxy.Sctp.{sctp_connections, sctp_client_loop}

abbrev busy : Server sctp_connections
busy = record {
  listening = true;
  running = true;
  clients = sctp_client_loop false ∷ end_to_backend sctp_connections (sctp_client_loop true) ∷ [];
}
