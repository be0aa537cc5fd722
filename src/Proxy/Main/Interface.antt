-- ===== src/Proxy/Main/Interface.antt =====
-- The interface `Proxy` of cmd/mct-docker-proxy/proxy.go: the addresses of a proxy.
use mactainer.Base.{
  ◌<>◌, ◌≡◌, refl, ap, sym, ◌∙◌, subst, Bool-cases, some, inl, inr, ok, Result-cases, arith,
}
use mactainer.Proxy.Addr.{Ip, NetAddr, is_ipv4, ip_version}
use mactainer.Proxy.Gateway.{Forwarder, post_request}
use mactainer.Proxy.Tcp.{TcpProxy, Environment, Network, new_tcp_proxy, service_url, exposure}
use mactainer.Proxy.Main.Dispatch.{Addr, tcp, udp, sctp, first_ip}
use mactainer.Proxy.Main.Start.{Proxy, Listens}

-- `FrontendAddr()`
unfoldable pub frontend_addr : Proxy → Addr
frontend_addr (Proxy.udp p) = udp p.frontend_addr
frontend_addr (Proxy.tcp p) = tcp p.frontend_addr
frontend_addr (Proxy.sctp p) = sctp p.frontend_addr

-- `BackendAddr()`
unfoldable pub backend_addr : Proxy → Addr
backend_addr (Proxy.udp p) = udp p.backend_addr
backend_addr (Proxy.tcp p) = tcp p.backend_addr
backend_addr (Proxy.sctp p) = sctp p.backend_addr

module _ (F : Forwarder) (env : Environment) (os : Listens) where
  -- Listening at the first address, by the network of its kind and IP version, gave the second one.
  abbrev pub IsBound : Addr → Addr → Type 0
  IsBound (udp f) (udp a) = os.listen_udp ("udp" <> ip_version f.ip) f ≡ ok a
  IsBound (tcp f) (tcp a) = env.listen ("tcp" <> ip_version f.ip) f ≡ ok a
  IsBound (sctp f) (sctp a) =
      (ip : Ip) × (first_ip f ≡ some ip) × (os.listen_sctp ("sctp" <> ip_version ip) f ≡ ok a)
  IsBound _ _ = ⊥

  abbrev made_proxy : Network F → NetAddr → NetAddr → TcpProxy
  made_proxy n b a = record { listener = n.next_listener; frontend_addr = a; backend_addr = b }

  from_made :
      (f b a : NetAddr) (p q : TcpProxy)
      → env.listen ("tcp" <> ip_version f.ip) f ≡ ok a
      → p.backend_addr ≡ b
      → p.frontend_addr ≡ a
      → p ≡ q
      → (q.backend_addr ≡ b) × (env.listen ("tcp" <> ip_version f.ip) f ≡ ok q.frontend_addr)
  from_made f b a p q bound back front same =
      subst
        (λ q. (q.backend_addr ≡ b) × (env.listen ("tcp" <> ip_version f.ip) f ≡ ok q.frontend_addr))
        same (back, bound ∙ ap ok (sym front))

  pub tcp_bound :
      (f b : NetAddr) (n : Network F) (q : TcpProxy)
      → (new_tcp_proxy F env f b n).0 ≡ ok q
      → (q.backend_addr ≡ b) × (env.listen ("tcp" <> ip_version f.ip) f ≡ ok q.frontend_addr)
  unfolding new_tcp_proxy
  tcp_bound f b n q h = elim (Result-cases (env.listen ("tcp" <> ip_version f.ip) f)) [
    | inr (e, refused) ↦ absurd (ground (arith, rw refused at h))
    | inl (a, bound) ↦ elim (Result-cases (env.parse_url (service_url F env "expose"))) [
      | inr (e, refused) ↦ absurd (ground (arith, rw (bound, refused) at h))
      | inl (u, parsed) ↦ elim (Bool-cases (is_ipv4 f.ip)) [
        | inr v6 ↦
            let went = rw (bound, parsed, v6) at h in
            from_made f b a (made_proxy n b a) q bound refl refl (cc)
        | inl v4 ↦
            let went = rw (bound, parsed, v4) at h in
            elim (Result-cases (post_request (F.expose (exposure F a.port) n.forwarder).0)) [
              | inl (w, granted) ↦
                  let all = rw granted at went in
                  from_made f b a (made_proxy n b a) q bound refl refl (cc)
              | inr (e, refused) ↦ absurd (ground (arith, rw refused at went))
            ]
      ]
    ]
  ]
