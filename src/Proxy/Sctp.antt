-- ===== src/Proxy/Sctp.antt =====
-- cmd/mct-docker-proxy/sctp_proxy.go: each end of a copy closes both connections.
pub mod Closing
pub mod Cutting
use mactainer.Base.{
  String, ◌<>◌, ◌≡◌, ◌⊎◌, Bool, true, false, ◌&&◌, Option, none, some, Result, ok, err,
}
use mactainer.Errors.{GoError}
use mactainer.Proxy.Addr.{Ip, ip_version}
use mactainer.Proxy.Main.Dispatch.{SctpAddr, first_ip}
use mactainer.Proxy.Relay.{Connections, Relay, client_loop}
use mactainer.Proxy.Relay.Traffic.{Directions}

-- The listener is open, and `listen` has said at which address.
pub record SctpProxy : Type 0 where
  pub frontend_addr : SctpAddr
  pub backend_addr : SctpAddr

abbrev made : SctpAddr → Result GoError SctpAddr → Result GoError SctpProxy
made backend (err e) = err e
made backend (ok addr) = ok (record { frontend_addr = addr; backend_addr = backend })

abbrev listened :
    (String → SctpAddr → Result GoError SctpAddr)
    → SctpAddr
    → SctpAddr
    → Option Ip
    → Option (Result GoError SctpProxy)
listened listen frontend backend none = none
listened listen frontend backend (some ip) =
    some (made backend (listen ("sctp" <> ip_version ip) frontend))

-- `NewSCTPProxy(frontendAddr, backendAddr)`, with `sctp.ListenSCTP` as an argument; `none` is a
-- panic.
unfoldable pub new_sctp_proxy :
    (String → SctpAddr → Result GoError SctpAddr)
    → SctpAddr
    → SctpAddr
    → Option (Result GoError SctpProxy)
unfolding first_ip ip_version
new_sctp_proxy listen frontend backend = listened listen frontend backend (first_ip frontend)

-- Which of the two connections are open: the client's and the backend's.
pub record Open : Type 0 where
  pub client : Bool
  pub backend : Bool

-- `from.Close()` and `to.Close()`, at the end of either copy
unfoldable pub copied : Open → Open
copied o = record { client = false; backend = false }

abbrev pub sctp_connections : Connections
sctp_connections = record {
  State = Open;
  opened = record { client = true; backend = true };
  undialled = record { client = false; backend = false };
  client_copied = copied;
  backend_copied = copied;
  close_both = λ o. record { client = false; backend = false };
}

abbrev pub sctp_directions : Directions sctp_connections
sctp_directions = record {
  feeds_client = λ o. o.client && o.backend;
  feeds_backend = λ o. o.client && o.backend;
}

-- `clientLoop` up to the `select`
abbrev pub sctp_client_loop : Bool → Relay sctp_connections
sctp_client_loop = client_loop sctp_connections
