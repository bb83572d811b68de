-- ===== src/Central/Kernel/Stale.antt =====
-- CSKernel.cpp: a server that registers with an id that the table does not have.
use mathlib.Core.Option.{none-ne-some, some-injective}
use asio_utils.Base.{
  ℕ, ◌-◌, ◌^◌, ◌≡◌, ◌≢◌, ◌<◌, refl, sym, ◌∙◌, ap, inl, inr, true, false, ◌&&◌, ◌||◌, List, [], ◌∷◌,
  ◌++◌, Option, none, some, ltb, leb, ◌==◌, if◌then◌else◌, ◌>>=◌, length, lookup, assign,
  lookup-assign, if-both, Bool-cases, arith,
}
use asio_utils.Central.Kernel.{
  Listener, ServerInfo, Request, Endpoint, Kernel, invalid_lid, transmit, servers_of, conn_servers,
  announce, server_regist_rs, registered, known_server, fresh_server, inform, met, endpoints_of,
  gate_answer, to_session, server_register_rs, welcome, server_regist_rq, best_gate,
  request_best_gate_server, send_all_distribute_match_infos,
}

-- The entry of a server is a null pointer.
abbrev IsNull : ℕ → List (ℕ × Option ServerInfo) → Type 0
IsNull j servers = lookup j servers ≡ some none

IsNull-rest :
    (j sid : ℕ) (info : ServerInfo) (servers : List (ℕ × Option ServerInfo))
    → IsNull j ((sid, some info) ∷ servers)
    → IsNull j servers
unfolding lookup
IsNull-rest j sid info servers h = elim (Bool-cases (j == sid)) [
  | inl e ↦ absurd (
      none-ne-some info (
        sym (
          some-injective _ _
            (ap (λ b. if b then some (some info) else lookup j servers) (sym e) ∙ h))))
  | inr e ↦ ap (λ b. if b then some (some info) else lookup j servers) (sym e) ∙ h
]

best_gate-IsNull :
    (j loaded : ℕ) (servers : List (ℕ × Option ServerInfo)) (best : Option ServerInfo)
    → IsNull j servers
    → best_gate servers loaded best ≡ none
unfolding best_gate lookup
best_gate-IsNull j loaded [] best h = absurd (none-ne-some {A = Option ServerInfo} none h)
best_gate-IsNull j loaded ((sid, none) ∷ servers) best h = refl
best_gate-IsNull j loaded ((sid, some info) ∷ servers) best h =
    let rest = IsNull-rest j sid info servers h in
    if-both (λ o. o ≡ none) (info.type == 1 && ltb info.loaded loaded)
      (best_gate-IsNull j info.loaded servers (some info) rest)
      (best_gate-IsNull j loaded servers best rest)

servers_of-IsNull :
    (j type kind : ℕ) (servers : List (ℕ × Option ServerInfo))
    → IsNull j servers
    → servers_of type kind servers ≡ none
unfolding servers_of lookup
servers_of-IsNull j type kind [] h = absurd (none-ne-some {A = Option ServerInfo} none h)
servers_of-IsNull j type kind ((sid, none) ∷ servers) h = refl
servers_of-IsNull j type kind ((sid, some info) ∷ servers) h =
    let here : List Endpoint =
      if info.type == type then endpoints_of type kind info info.listeners else [] in
    ap (λ o. o >>= (λ rest. some (here ++ rest)))
      (servers_of-IsNull j type kind servers (IsNull-rest j sid info servers h))

-- Looking for the servers to connect to ends at the null pointer, or there is no kind to look for.
conn_servers-IsNull :
    (j kind : ℕ) (servers : List (ℕ × Option ServerInfo)) (types : List ℕ)
    (then_do : List Endpoint → Option Kernel)
    → IsNull j servers
    → then_do [] ≡ none
    → (conn_servers kind servers types >>= then_do) ≡ none
unfolding conn_servers
conn_servers-IsNull j kind servers [] then_do h e = e
conn_servers-IsNull j kind servers (type ∷ types) then_do h e =
    ap
      (λ o.
        (o >>= (λ here. conn_servers kind servers types >>= (λ rest. some (here ++ rest))))
        >>= then_do)
      (servers_of-IsNull j type kind servers h)

bind_assoc :
    {A B : Type 0} (o : Option A) (f : A → Option B) (g : B → Option Kernel)
    → (o >>= f >>= g) ≡ (o >>= (λ x. f x >>= g))
bind_assoc none f g = refl
bind_assoc (some a) f g = refl

announce-servers :
    (info : ServerInfo) (ls : List Listener) (k : Kernel) → (announce info ls k).servers ≡ k.servers
unfolding announce transmit
announce-servers info [] k = refl
announce-servers info (l ∷ ls) k = announce-servers info ls _

request-IsNull :
    (j q extra : ℕ) (k : Kernel)
    → IsNull j k.servers
    → request_best_gate_server q true extra k ≡ none
unfolding request_best_gate_server
request-IsNull j q extra k h =
    ap (λ o. o >>= (λ best. some (transmit (to_session q) 17002 extra (gate_answer best) k)))
      (best_gate-IsNull j (2 ^ 31 - 1) k.servers none h)

inform-IsNull :
    (j now p : ℕ) (info : ServerInfo) (k : Kernel)
    → IsNull j k.servers
    → IsNull j (inform now p info k).servers
unfolding inform send_all_distribute_match_infos transmit
inform-IsNull j now p info k h =
    if-both (λ (n : Kernel). IsNull j n.servers) ((k.at p).type == 3) h
      (if-both (λ (n : Kernel). IsNull j n.servers) ((k.at p).type == 1) h h)

welcome-IsNull :
    (j now p sid q extra : ℕ) (old : ServerInfo) (k : Kernel)
    → IsNull j k.servers
    → j ≢ sid
    → (welcome now p (sid, old, k) >>= request_best_gate_server q true extra) ≡ none
unfolding welcome server_regist_rs transmit
welcome-IsNull j now p sid q extra old k h ne =
    let info = met now (k.at p).type old in
    let servers = assign sid (some info) k.servers in
    let null : IsNull j servers =
      lookup-assign sid j (some info) k.servers ∙ ground (arith, ne, h) in
    let answered : List Endpoint → Kernel = λ conns. announce info info.listeners (
      transmit (to_session p) 5002 0 (server_register_rs 0 info.sid conns)
        (record k { servers = servers })) in
    let told : Kernel → Option Kernel = λ n. some (inform now p info n) in
    let ask : Kernel → Option Kernel = request_best_gate_server q true extra in
    let found = conn_servers (k.at p).type servers info.connect_types in
    ap (λ o. o >>= ask) (bind_assoc found (λ c. some (answered c)) told)
    ∙ bind_assoc found (λ c. told (answered c)) ask
    ∙ conn_servers-IsNull j (k.at p).type servers info.connect_types
        (λ c. told (answered c) >>= ask) null
        (request-IsNull j q extra (inform now p info (answered [])) (
          inform-IsNull j now p info (answered [])
            (ap (lookup j) (announce-servers info info.listeners _) ∙ null)))

-- A server that registers with an id, not -1 and not that of its session, which is not in the
-- table though it is smaller than the table's size, leaves a null pointer there: either
-- registering dereferences one, or the next request for a gate does.
pub stale_sid_lem :
    (now p q extra : ℕ) (rq : Request) (k : Kernel)
    → rq.sid ≢ invalid_lid
    → rq.sid < length k.servers
    → lookup rq.sid k.servers ≡ none
    → rq.sid ≢ (k.at p).uuid
    → (server_regist_rq now p (some rq) k >>= request_best_gate_server q true extra) ≡ none
unfolding server_regist_rq registered known_server fresh_server
stale_sid_lem now p q extra rq k valid small absent new =
    let uuid = (k.at p).uuid in
    let fresh = fresh_server p rq (record k { servers = assign rq.sid none k.servers }) in
    let left : lookup rq.sid (assign rq.sid none k.servers) ≡ some none =
      lookup-assign rq.sid rq.sid none k.servers ∙ ground arith in
    let null : IsNull rq.sid fresh.2.servers =
      lookup-assign uuid rq.sid (some fresh.1) (assign rq.sid none k.servers)
      ∙ ground (arith, new, left) in
    let taken : (rq.sid == invalid_lid || leb (length k.servers) rq.sid) ≡ false =
      ground (arith, valid, small) in
    let reached : registered p rq k ≡ fresh =
      ap (λ b. if b then fresh_server p rq k else known_server p rq k (lookup rq.sid k.servers))
        taken
      ∙ ap (known_server p rq k) absent in
    ap (λ r. welcome now p r >>= request_best_gate_server q true extra) reached
    ∙ welcome-IsNull rq.sid now p uuid q extra fresh.1 fresh.2 null new
