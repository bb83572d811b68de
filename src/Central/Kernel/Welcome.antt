-- ===== src/Central/Kernel/Welcome.antt =====
-- CSKernel.cpp, `serverRegistRQ`: a registration as a whole.
use asio_utils.Base.{
  ℕ, Bool, ◌||◌, ◌&&◌, true, List, [], ◌∷◌, ◌++◌, Option, none, some, leb, ◌==◌, if◌then◌else◌, ◌≡◌,
  ◌⊎◌, length, lookup, assign,
}
use asio_utils.Central.Manager.{Manager, contains, update_match_service}
use asio_utils.Central.Kernel.{
  ServerInfo, Request, Endpoint, Sent, Kernel, to_session, server_register_rs, all_match_distribute,
  invalid_lid, entries, registered, met,
}
use asio_utils.Central.Kernel.Gates.{NoNull}
use asio_utils.Central.Kernel.Connects.{told, offered, notices}

-- The source's test for a server that has not been given an id.
unfoldable pub is_new : Request → Kernel → Bool
is_new rq k = rq.sid == invalid_lid || leb (length k.servers) rq.sid

wanted_known : Request → Option (Option ServerInfo) → List ℕ
wanted_known rq (some (some info)) = info.connect_types
wanted_known rq (some none) = rq.connect_types
wanted_known rq none = rq.connect_types

-- The types that the server connects to: one that is known does so as it did.
pub wanted : Request → Kernel → List ℕ
unfolding is_new wanted_known
wanted rq k = if is_new rq k then rq.connect_types else wanted_known rq (lookup rq.sid k.servers)

-- The server is new, or its id is in the table.
unfoldable pub IsFamiliar : Request → Kernel → Type 0
IsFamiliar rq k =
    (is_new rq k ≡ true) ⊎ ((info : ServerInfo) × (lookup rq.sid k.servers ≡ some (some info)))

-- What a registration finds or makes.
record IsFound (p : ℕ) (rq : Request) (k : Kernel) (types : List ℕ) (r : ℕ × ServerInfo × Kernel)
    : Type 0 where
  real : NoNull r.2.servers
  same_sent : r.2.sent ≡ k.sent
  same_manager : r.2.manager ≡ k.manager
  same_type : (r.2.at p).type ≡ (k.at p).type
  types_found : r.1.connect_types ≡ types

-- The info of the server in the table, after `registered` has found or made it.
pub listed : ℕ → ℕ → ℕ × ServerInfo × Kernel → ServerInfo
unfolding met
listed now p r = met now (r.2.at p).type r.1

-- A gate is told which servers have the matches.
pub news : ℕ → ℕ → Manager → List Sent
unfolding entries
news p type m =
    if type == 1
    then record {
      target = to_session p;
      type = 5006;
      extra_id = 0;
      message = all_match_distribute (entries m.services);
    }
      ∷ []
    else []

-- What the manager is told.
pub managed : ℕ → ℕ → ServerInfo → Manager → Manager
managed now type info m =
    if type == 3
    then update_match_service now (record { sid = info.sid; loaded = info.loaded }) m
    else m

answer_sent : ℕ → ServerInfo → List Endpoint → Sent
answer_sent p info es = record {
  target = to_session p;
  type = 5002;
  extra_id = 0;
  message = server_register_rs 0 info.sid es;
}

-- What is sent at a registration.
pub greetings : ℕ → ServerInfo → List Endpoint → Kernel → List Sent
unfolding answer_sent
greetings p info es k =
    answer_sent p info es ∷ notices info info.listeners ++ news p (k.at p).type k.manager

-- The kernel after a registration, whose answer names the endpoints `es`.
pub record IsWelcomed (now p : ℕ) (rq : Request) (k : Kernel) (es : List Endpoint) (n : Kernel)
    : Type 0 where
  pub table :
      let r = registered p rq k in n.servers ≡ assign r.0 (some (listed now p r)) r.2.servers
  pub sent : n.sent ≡ k.sent ++ greetings p (listed now p (registered p rq k)) es k
  pub manager : n.manager ≡ managed now (k.at p).type (listed now p (registered p rq k)) k.manager
  pub endpoints :
      (e : Endpoint)
      → told e es ≡ (contains e.type (wanted rq k) && offered (k.at p).type e n.servers)
