-- ===== src/Cpg/ToCentral/Register.antt =====
-- ASIO_ALONE_STUDY/CPG/Net/CPGToCentralSession.cpp, `sendRegisterData`: what a server tells the central
-- server of its configuration. A `std::set` is the list of its elements in order. Sending it, and
-- starting the heart beat, are left out.
use asio_utils.Base.{ℕ, Bool, List, [], ◌∷◌, ◌++◌, ◌&&◌, ltb, ◌==◌, if◌then◌else◌}
use asio_utils.Central.Kernel.{Listener, Request}

-- The part of a `ServerNetConfig::ServerInfo` that is read here.
pub record Configured : Type 0 where
  pub connect_types : List ℕ
  pub listen_infos : List Listener

unfoldable pub same_listener : Listener → Listener → Bool
same_listener l l' = l.type == l'.type && l.ip == l'.ip && l.port == l'.port

-- `listens.unique`: the first of each run of the same listener.
unfoldable pub unique_after : Listener → List Listener → List Listener
unfolding same_listener
unique_after l [] = []
unique_after l (l' ∷ ls) =
    let same = unique_after l ls in
    let other = unique_after l' ls in if same_listener l l' then same else l' ∷ other

unfoldable pub unique_listens : List Listener → List Listener
unfolding unique_after
unique_listens [] = []
unique_listens (l ∷ ls) = l ∷ unique_after l ls

unfoldable pub all_listens : List Configured → List Listener
all_listens [] = []
all_listens (info ∷ infos) = info.listen_infos ++ all_listens infos

unfoldable pub listen_infos : List Configured → List Listener
unfolding all_listens unique_listens
listen_infos infos = unique_listens (all_listens infos)

unfoldable pub insert_type : ℕ → List ℕ → List ℕ
insert_type x [] = x ∷ []
insert_type x (y ∷ ys) =
    let rest = insert_type x ys in
    if x == y then y ∷ ys else if ltb x y then x ∷ y ∷ ys else y ∷ rest

unfoldable pub insert_types : List ℕ → List ℕ → List ℕ
unfolding insert_type
insert_types [] types = types
insert_types (x ∷ xs) types = insert_types xs (insert_type x types)

-- The loop over the infos, from the types so far.
unfoldable pub collect_types : List Configured → List ℕ → List ℕ
unfolding insert_types
collect_types [] types = types
collect_types (info ∷ infos) types = collect_types infos (insert_types info.connect_types types)

unfoldable pub connect_types : List Configured → List ℕ
unfolding collect_types
connect_types infos = collect_types infos []

-- The type and the rest of the message: the type is always `ServerType_MatchServer`.
unfoldable pub register_data : ℕ → List Configured → ℕ × Request
unfolding listen_infos connect_types
register_data sid infos =
    (3, record { sid = sid; listeners = listen_infos infos; connect_types = connect_types infos })
