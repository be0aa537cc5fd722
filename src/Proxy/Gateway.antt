-- ===== src/Proxy/Gateway.antt =====
-- cmd/mct-docker-proxy/mct_expose.go: requests to the forwarder of the virtual network's gateway.
use mactainer.Base.{
  ℕ, String, ◌≡◌, Bool, true, false, Result, ok, err, ◌==◌, nat_eq, string_eq, if◌then◌else◌,
}
use mactainer.Errors.{GoError, message, quoted}

abbrev pub api_endpoint : String
api_endpoint = "gateway.mct.mactainer"

abbrev pub api_endpoint_port : String
api_endpoint_port = "80"

pub record Expose : Type 0 where
  pub local : String
  pub remote : String
  pub protocol : String

pub record Unexpose : Type 0 where
  pub local : String

-- `getAPIEndpoint()`, given the variable PROXY_API_ADDR, which is empty if it is not set
unfoldable pub get_api_endpoint : String → String
unfolding string_eq
get_api_endpoint variable = if variable == "" then api_endpoint else variable

-- How a request ends: with no response, or with a status and a body that can be read or not.
pub data Response : Type 0 where
  no_response : GoError → Response
  response : (status : ℕ) → Result GoError String → Response

-- `annotateResponseError(resp.Body)`
unfoldable pub annotate_response_error : Result GoError String → GoError
unfolding string_eq
annotate_response_error (ok body) =
    if body == ""
    then message "gvisor-tap-vsock: could not read response"
    else quoted "gvisor-tap-vsock" body
annotate_response_error (err _) = message "gvisor-tap-vsock: could not read response"

-- What `postRequest` makes of the response; the bodies that it is given always encode.
unfoldable pub post_request : Response → Result GoError (Unit {0})
unfolding annotate_response_error nat_eq
post_request (no_response e) = err e
post_request (response status body) =
    if status == 200 then ok tt else err (annotate_response_error body)

-- The forwarder of gvisor-tap-vsock, which is not part of this program: what it answers to the two
-- requests, and which local addresses it forwards. A request answered by 200 was carried out.
pub record Forwarder : Type 1 where
  pub State : Type 0
  pub expose : Expose → State → Response × State
  pub unexpose : Unexpose → State → Response × State
  pub forwards : State → String → Bool

pub record IsForwarder (F : Forwarder) : Type 0 where
  pub exposed :
      (e : Expose) (s : F.State) (local : String)
      → post_request (F.expose e s).0 ≡ ok tt
      → F.forwards (F.expose e s).1 local ≡ (if local == e.local then true else F.forwards s local)
  pub unexposed :
      (u : Unexpose) (s : F.State) (local : String)
      → post_request (F.unexpose u s).0 ≡ ok tt
      → F.forwards (F.unexpose u s).1 local
        ≡ (if local == u.local then false else F.forwards s local)
