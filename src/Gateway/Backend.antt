-- ===== src/Gateway/Backend.antt =====
-- cmd/gateway/main.go: a connection is sent to the daemon that its server name is of.
use buildkit_operator.Base.{
  ◌≡◌, refl, sym, ap, ◌∙◌, Bool, true, false, ◌||◌, not, ◌==◌, if◌then◌else◌, ℤ, none, some, List,
  [], ◌∷◌, ◌++◌, append_assoc, All, Bytes, text, has_prefix, has_prefix-append, cut_suffix,
  cut_suffix-append, drop, Has, itoa, ◌⊎◌,
}
use buildkit_operator.Router.{daemon_name, endpoint, service_fqdn}
use buildkit_operator.Gateway.{
  server_name, failed, Parsed, peek_client_hello, sni_from_client_hello,
}

-- `gateway`, without the counters.
pub record Gateway : Type 0 where
  pub domains : List Bytes
  pub namespace : Bytes
  pub port : ℤ

-- `strings.ContainsAny(name, "./")`.
unfoldable pub has_separator : Bytes → Bool
has_separator [] = false
has_separator (c ∷ cs) = c == b'.' || c == b'/' || has_separator cs

pub data RouteError : Type 0 where
  not_a_daemon outside_domains : RouteError

pub data Backend : Type 0 where
  rejected : RouteError → Backend
  backend : Bytes → Backend

-- The address of a daemon's Service.
abbrev pub address_of : Gateway → Bytes → Bytes
address_of g name = name ++ (text "." ++ (g.namespace ++ (text ".svc:" ++ itoa g.port)))

-- The loop of `backendFor`.
unfoldable pub backend_in : Gateway → List Bytes → Bytes → Backend
backend_in g [] sni = rejected outside_domains
backend_in g (d ∷ ds) sni = elim (cut_suffix sni (text "." ++ d)) [
  | none ↦ backend_in g ds sni
  | some name ↦
      if not (has_prefix name (text "buildkitd-")) || has_separator name
      then rejected not_a_daemon
      else backend (address_of g name)
]

-- `backendFor`.
unfoldable pub backend_for : Gateway → Bytes → Backend
backend_for g sni = backend_in g g.domains sni

-- What a connection does upstream: the dial, the bytes that were read off the client, and the rest.
pub data Upstream : Type 0 where
  dial : Bytes → Upstream
  write : Bytes → Upstream
  pipe : Bytes → Upstream

-- `handle`: is the gateway full, what the client sends, and whether the dial and the write succeed.
unfoldable pub handle : Gateway → Bool → Bytes → Bool → Bool → List Upstream
handle g is_full input dialled written =
    let p = peek_client_hello input in
    if is_full then [] else elim p.parsed [
      | failed e ↦ []
      | server_name sni ↦ elim (backend_for g sni) [
        | rejected e ↦ []
        | backend addr ↦
            if not dialled
            then dial addr ∷ []
            else if not written
            then dial addr ∷ (write p.raw ∷ [])
            else dial addr ∷ (write p.raw ∷ (pipe p.rest ∷ []))
      ]
    ]

-- The address of a daemon in the namespace of the gateway, whose name under a domain of the list is the
-- server name.
pub record IsDaemon (g : Gateway) (ds : List Bytes) (sni addr : Bytes) : Type 0 where
  pub name : Bytes
  pub domain : Bytes
  pub listed : Has (λ d. domain ≡ d) ds
  pub named : sni ≡ name ++ (text "." ++ domain)
  pub prefixed : has_prefix name (text "buildkitd-") ≡ true
  pub plain : has_separator name ≡ false
  pub address : addr ≡ address_of g name

-- Why a connection is closed without a dial.
abbrev pub IsClosed : Gateway → Parsed → Type 0
IsClosed g (failed e) = Unit {0}
IsClosed g (server_name sni) = (e : RouteError) × (backend_for g sni ≡ rejected e)

-- A connection that is relayed: the server name is that of the first bytes `raw`, they and the rest are what
-- the client sent, and the daemon of the name gets the bytes and then the rest, as far as it answers.
pub record IsRelayed (g : Gateway) (input : Bytes) (dialled written : Bool) (log : List Upstream)
    : Type 0 where
  pub sni : Bytes
  pub addr : Bytes
  pub raw : Bytes
  pub rest : Bytes
  pub whole : raw ++ rest ≡ input
  pub read : sni_from_client_hello (drop 5 raw) ≡ server_name sni
  pub daemon : IsDaemon g g.domains sni addr
  pub sent :
      ((dialled ≡ false) × (log ≡ dial addr ∷ []))
      ⊎ ((dialled ≡ true) × (written ≡ false) × (log ≡ dial addr ∷ (write raw ∷ [])))
      ⊎ ((dialled ≡ true) × (written ≡ true) × (log ≡ dial addr ∷ (write raw ∷ (pipe rest ∷ []))))

-- Closed for a reason, or relayed while there is room.
abbrev pub IsRelay : Gateway → Bool → Bytes → Bool → Bool → List Upstream → Type 0
IsRelay g is_full input dialled written log =
    ((log ≡ []) × ((is_full ≡ true) ⊎ IsClosed g (peek_client_hello input).parsed))
    ⊎ ((is_full ≡ false) × IsRelayed g input dialled written log)

backend_in-skip :
    (g : Gateway) (before : List Bytes) (domain : Bytes) (after : List Bytes) (sni : Bytes)
    → All (λ d. cut_suffix sni (text "." ++ d) ≡ none) before
    → backend_in g (before ++ (domain ∷ after)) sni ≡ backend_in g (domain ∷ after) sni
unfolding backend_in
backend_in-skip g [] domain after sni others = refl
backend_in-skip g (d ∷ ds) domain after sni others =
    rw (others.0, backend_in) (backend_in-skip g ds domain after sni others.1)

-- The name that a client of a project dials off the cluster.
abbrev pub sni_of : Bytes → Bytes → Bytes
sni_of key domain = daemon_name key ++ (text "." ++ domain)

daemon_name-has_separator : (key : Bytes) → has_separator (daemon_name key) ≡ has_separator key
unfolding daemon_name has_separator
daemon_name-has_separator key = refl

daemon_name-IsNamed : (key : Bytes) → has_prefix (daemon_name key) (text "buildkitd-") ≡ true
unfolding daemon_name
daemon_name-IsNamed key = has_prefix-append (text "buildkitd-") key

-- The name that a client dials for a project under a domain of the gateway is sent to the endpoint
-- of that project inside the cluster, if no domain before it in the list ends the name too and the
-- key has no dot and no slash.
pub backend_for-endpoint :
    (g : Gateway) (before : List Bytes) (domain : Bytes) (after : List Bytes) (key : Bytes)
    → g.domains ≡ before ++ (domain ∷ after)
    → All (λ d. cut_suffix (sni_of key domain) (text "." ++ d) ≡ none) before
    → has_separator key ≡ false
    → (addr : Bytes) × (backend_for g (sni_of key domain) ≡ backend addr)
      × (text "tcp://" ++ addr ≡ endpoint key g.namespace g.port)
unfolding backend_for backend_in endpoint service_fqdn itoa
backend_for-endpoint g before domain after key served others plain =
    let name = daemon_name key in
    let cut = cut_suffix-append name (text "." ++ domain) in
    let here : backend_in g (domain ∷ after) (sni_of key domain) ≡ backend (address_of g name) =
      rw (cut, backend_in, daemon_name-IsNamed key, daemon_name-has_separator key ∙ plain) refl in
    (
      address_of g name,
      ap (λ (ds : List Bytes). backend_in g ds (sni_of key domain)) served
          ∙ backend_in-skip g before domain after (sni_of key domain) others
          ∙ here,
      ap (λ (s : Bytes). text "tcp://" ++ s)
          (sym (
            append_assoc name (text "." ++ (g.namespace ++ text ".svc")) (text ":" ++ itoa g.port)
            ∙ ap (λ (s : Bytes). name ++ (text "." ++ s))
                (append_assoc g.namespace (text ".svc") (text ":" ++ itoa g.port)))),
    )
