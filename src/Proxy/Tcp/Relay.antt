-- ===== src/Proxy/Tcp/Relay.antt =====
-- What `clientLoop` of cmd/mct-docker-proxy/tcp_proxy.go closes: the two directions of a connection
-- can be closed one by one.
use mactainer.Base.{Bool, true, false, ◌&&◌}
use mactainer.Proxy.Relay.{Connections}
use mactainer.Proxy.Relay.Traffic.{Directions}

-- The two directions of a connection that are open.
pub record Halves : Type 0 where
  pub reading : Bool
  pub writing : Bool

pub record Ends : Type 0 where
  pub client : Halves
  pub backend : Halves

abbrev pub whole : Halves
whole = record { reading = true; writing = true }

abbrev pub shut : Halves
shut = record { reading = false; writing = false }

-- `from.CloseRead()` and `to.CloseWrite()` at the end of `broker(client, backend)`
unfoldable pub client_copied : Ends → Ends
client_copied e = record {
  client = record e.client { writing = false };
  backend = record e.backend { reading = false };
}

-- The same at the end of `broker(backend, client)`
unfoldable pub backend_copied : Ends → Ends
backend_copied e = record {
  client = record e.client { reading = false };
  backend = record e.backend { writing = false };
}

abbrev pub tcp_connections : Connections
tcp_connections = record {
  State = Ends;
  opened = record { client = whole; backend = whole };
  undialled = record { client = shut; backend = shut };
  client_copied = client_copied;
  backend_copied = backend_copied;
  close_both = λ e. record { client = shut; backend = shut };
}

-- A copy reads from one connection and writes to the other.
abbrev pub tcp_directions : Directions tcp_connections
tcp_directions = record {
  feeds_client = λ e. e.backend.reading && e.client.writing;
  feeds_backend = λ e. e.client.reading && e.backend.writing;
}
