-- ===== src/Central/Kernel/Connects.antt =====
-- CSKernel.cpp, `serverRegistRS`: the services that a server is told to connect to.
use asio_utils.Base.{
  ℕ, Bool, false, List, [], ◌∷◌, ◌++◌, ◌||◌, ◌&&◌, Option, none, some, ◌==◌, if◌then◌else◌, ◌>>=◌,
  ◌≡◌, ◌∙◌, sym, ap, refl, append-nil, append_assoc, arith,
}
use asio_utils.Central.Kernel.{
  Listener, ServerInfo, Endpoint, Sent, Kernel, to_session, to_type, server_register_rs,
  new_conn_service, transmit, endpoints_of, servers_of, conn_servers, announce, server_regist_rs,
}
use asio_utils.Central.Kernel.Gates.{NoNull}
use asio_utils.Central.Manager.{contains}

pub told : Endpoint → List Endpoint → Bool
told e [] = false
told e (e' ∷ es) =
    (e.type == e'.type && e.port == e'.port && e.sid == e'.sid && e.ip == e'.ip) || told e es

-- Of the listeners, one for sessions of the kind is at the endpoint's port and address.
unfoldable listens : ℕ → Endpoint → List Listener → Bool
listens kind e [] = false
listens kind e (l ∷ ls) = (kind == l.type && e.port == l.port && e.ip == l.ip) || listens kind e ls

-- Some server of the table has the endpoint's type and id, and listens there.
pub offered : ℕ → Endpoint → List (ℕ × Option ServerInfo) → Bool
unfolding listens
offered kind e [] = false
offered kind e ((sid, none) ∷ servers) = offered kind e servers
offered kind e ((sid, some info) ∷ servers) =
    (e.type == info.type && e.sid == info.sid && listens kind e info.listeners)
    || offered kind e servers

told-append :
    (e : Endpoint) (es es' : List Endpoint) → told e (es ++ es') ≡ (told e es || told e es')
unfolding told
told-append e [] es' = refl
told-append e (x ∷ es) es' = ground (arith, told-append e es es')

told-endpoints_of :
    (e : Endpoint) (type kind : ℕ) (info : ServerInfo) (ls : List Listener)
    → told e (endpoints_of type kind info ls)
      ≡ (e.type == type && e.sid == info.sid && listens kind e ls)
unfolding told endpoints_of listens
told-endpoints_of e type kind info [] = ground arith
told-endpoints_of e type kind info (l ∷ ls) = ground (arith, told-endpoints_of e type kind info ls)

told-here :
    (e : Endpoint) (type kind : ℕ) (info : ServerInfo)
    → told e (if info.type == type then endpoints_of type kind info info.listeners else []) ≡ (
        e.type == type
        && (e.type == info.type && e.sid == info.sid && listens kind e info.listeners))
unfolding told
told-here e type kind info = ground (arith, told-endpoints_of e type kind info info.listeners)

told-servers_of :
    (type kind : ℕ) (servers : List (ℕ × Option ServerInfo))
    → NoNull servers
    → (es : List Endpoint) × (servers_of type kind servers ≡ some es)
      × ((e : Endpoint) → told e es ≡ (e.type == type && offered kind e servers))
unfolding servers_of NoNull offered told
told-servers_of type kind [] h = ([], refl, λ e. ground arith)
told-servers_of type kind ((sid, none) ∷ servers) h = absurd h
told-servers_of type kind ((sid, some info) ∷ servers) h =
    let (rest, e, all) = told-servers_of type kind servers h in
    let here = if info.type == type then endpoints_of type kind info info.listeners else [] in
    (
      here ++ rest,
      ap (λ o. o >>= (λ rest'. some (here ++ rest'))) e,
      λ x. ground (arith, told-append x here rest, told-here x type kind info, all x),
    )

told-conn_servers :
    (kind : ℕ) (servers : List (ℕ × Option ServerInfo)) (types : List ℕ)
    → NoNull servers
    → (es : List Endpoint) × (conn_servers kind servers types ≡ some es)
      × ((e : Endpoint) → told e es ≡ (contains e.type types && offered kind e servers))
unfolding conn_servers told contains
told-conn_servers kind servers [] h = ([], refl, λ e. refl)
told-conn_servers kind servers (type ∷ types) h =
    let (here, e, all) = told-servers_of type kind servers h in
    let (rest, e', all') = told-conn_servers kind servers types h in
    (
      here ++ rest,
      ap (λ o. o >>= (λ es. conn_servers kind servers types >>= (λ es'. some (es ++ es')))) e
          ∙ ap (λ o. o >>= (λ es'. some (here ++ es'))) e',
      λ x. ground (arith, told-append x here rest, all x, all' x),
    )

-- What the servers are told of each listener of a new one.
pub notices : ServerInfo → List Listener → List Sent
notices info [] = []
notices info (l ∷ ls) =
    record {
      target = to_type l.type;
      type = 5005;
      extra_id = 0;
      message =
          new_conn_service (record { type = info.type; port = l.port; sid = info.sid; ip = l.ip });
    }
    ∷ notices info ls

announce_lem :
    (info : ServerInfo) (ls : List Listener) (k : Kernel)
    → announce info ls k ≡ record k { sent = k.sent ++ notices info ls }
unfolding announce notices transmit
announce_lem info [] k = ap (λ s. record k { sent = s }) (sym (append-nil k.sent))
announce_lem info (l ∷ ls) k =
    announce_lem info ls _
    ∙ ap (λ s. record k { sent = s }) (append_assoc k.sent _ (notices info ls))

-- What has been sent when the answer to the session `p` names the endpoints `es`.
unfoldable pub answered : ℕ → ServerInfo → List Endpoint → Kernel → Kernel
unfolding notices
answered p info es k = record k {
  sent =
      (k.sent
        ++ record {
          target = to_session p;
          type = 5002;
          extra_id = 0;
          message = server_register_rs 0 info.sid es;
        }
          ∷ [])
      ++ notices info info.listeners;
}

-- While the table has no null pointer, `serverRegistRS` answers, then tells of each listener of the
-- server the servers of the listener's type, and sends nothing else. The answer names an endpoint if and
-- only if its type is one that the server connects to, and some server of that type and id has there
-- a listener for the type of the session that registers.
pub server_regist_rs-answered :
    (p : ℕ) (info : ServerInfo) (k : Kernel)
    → NoNull k.servers
    → (es : List Endpoint) × (server_regist_rs p info k ≡ some (answered p info es k))
      × ((e : Endpoint)
          → told e es ≡ (contains e.type info.connect_types && offered (k.at p).type e k.servers))
unfolding server_regist_rs transmit answered
server_regist_rs-answered p info k h =
    let (es, e, all) = told-conn_servers (k.at p).type k.servers info.connect_types h in
    (
      es,
      ap
            (λ o. o >>= (λ es'. some (
              announce info info.listeners
                (transmit (to_session p) 5002 0 (server_register_rs 0 info.sid es') k))))
            e
          ∙ ap (λ k'. some k') (announce_lem info info.listeners _),
      all,
    )
