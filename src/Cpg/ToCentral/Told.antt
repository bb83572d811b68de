-- ===== src/Cpg/ToCentral/Told.antt =====
-- CPGToCentralSession.cpp, `sendRegisterData`: the message has what the configuration has.
use asio_utils.Base.{
  ℕ, Bool, true, false, List, [], ◌∷◌, ◌++◌, ◌||◌, ◌&&◌, some, ltb, ◌≡◌, ◌∙◌, ap, refl, arith,
}
use asio_utils.Central.Kernel.{Listener, ServerInfo, Endpoint, Kernel, server_regist_rs}
use asio_utils.Central.Kernel.Gates.{NoNull}
use asio_utils.Central.Kernel.Connects.{told, offered, answered, server_regist_rs-answered}
use asio_utils.Central.Manager.{contains}
use asio_utils.Cpg.ToCentral.Register.{
  Configured, same_listener, unique_after, unique_listens, all_listens, listen_infos, insert_type,
  insert_types, collect_types, connect_types, register_data,
}

unfoldable has_listener : Listener → List Listener → Bool
unfolding same_listener
has_listener l [] = false
has_listener l (l' ∷ ls) = same_listener l l' || has_listener l ls

has_listener-unique_after :
    (l l' : Listener) (ls : List Listener)
    → has_listener l (l' ∷ unique_after l' ls) ≡ has_listener l (l' ∷ ls)
unfolding has_listener unique_after same_listener
has_listener-unique_after l l' [] = refl
has_listener-unique_after l l' (m ∷ ls) =
    ground (arith, has_listener-unique_after l l' ls, has_listener-unique_after l m ls)

has_listener-unique_listens :
    (l : Listener) (ls : List Listener) → has_listener l (unique_listens ls) ≡ has_listener l ls
unfolding unique_listens
has_listener-unique_listens l [] = refl
has_listener-unique_listens l (l' ∷ ls) = has_listener-unique_after l l' ls

-- The types in order, each once: those from `x` on.
unfoldable above : ℕ → List ℕ → Bool
above x [] = true
above x (y ∷ ys) = ltb x y && above y ys

unfoldable increasing : List ℕ → Bool
unfolding above
increasing [] = true
increasing (x ∷ xs) = above x xs

above-insert_type :
    (a x : ℕ) (ys : List ℕ) → ltb a x ≡ true → above a ys ≡ true → above a (insert_type x ys) ≡ true
unfolding above insert_type
above-insert_type a x [] lt up = ground (arith, lt)
above-insert_type a x (y ∷ ys) lt up = ground (arith, above-insert_type y x ys)

increasing-insert_type :
    (x : ℕ) (ys : List ℕ) → increasing ys ≡ true → increasing (insert_type x ys) ≡ true
unfolding increasing above insert_type
increasing-insert_type x [] up = refl
increasing-insert_type x (y ∷ ys) up = ground (arith, above-insert_type y x ys)

contains-insert_type : (z x : ℕ) (ys : List ℕ) → contains z (insert_type x ys) ≡ contains z (x ∷ ys)
unfolding contains insert_type
contains-insert_type z x [] = refl
contains-insert_type z x (y ∷ ys) = ground (arith, contains-insert_type z x ys)

contains-insert_types :
    (z : ℕ) (xs ys : List ℕ) → contains z (insert_types xs ys) ≡ (contains z xs || contains z ys)
unfolding contains insert_types
contains-insert_types z [] ys = refl
contains-insert_types z (x ∷ xs) ys =
    ground (arith, contains-insert_types z xs (insert_type x ys), contains-insert_type z x ys)

increasing-insert_types :
    (xs ys : List ℕ) → increasing ys ≡ true → increasing (insert_types xs ys) ≡ true
unfolding insert_types
increasing-insert_types [] ys up = up
increasing-insert_types (x ∷ xs) ys up =
    increasing-insert_types xs (insert_type x ys) (increasing-insert_type x ys up)

-- A server of the configuration connects to the servers of the type.
unfoldable connects_to : ℕ → List Configured → Bool
unfolding contains
connects_to z [] = false
connects_to z (info ∷ infos) = contains z info.connect_types || connects_to z infos

contains-collect_types :
    (z : ℕ) (infos : List Configured) (types : List ℕ)
    → contains z (collect_types infos types) ≡ (connects_to z infos || contains z types)
unfolding collect_types connects_to
contains-collect_types z [] types = refl
contains-collect_types z (info ∷ infos) types = ground (
  arith,
  contains-collect_types z infos (insert_types info.connect_types types),
  contains-insert_types z info.connect_types types,
)

increasing-collect_types :
    (infos : List Configured) (types : List ℕ)
    → increasing types ≡ true
    → increasing (collect_types infos types) ≡ true
unfolding collect_types
increasing-collect_types [] types up = up
increasing-collect_types (info ∷ infos) types up =
    increasing-collect_types infos (insert_types info.connect_types types)
      (increasing-insert_types info.connect_types types up)

-- Some server of the configuration listens there.
unfoldable listens_at : Listener → List Configured → Bool
unfolding has_listener
listens_at l [] = false
listens_at l (info ∷ infos) = has_listener l info.listen_infos || listens_at l infos

has_listener-append :
    (l : Listener) (ls ls' : List Listener)
    → has_listener l (ls ++ ls') ≡ (has_listener l ls || has_listener l ls')
unfolding has_listener
has_listener-append l [] ls' = refl
has_listener-append l (l' ∷ ls) ls' = ground (arith, has_listener-append l ls ls')

has_listener-all_listens :
    (l : Listener) (infos : List Configured)
    → has_listener l (all_listens infos) ≡ listens_at l infos
unfolding all_listens listens_at
has_listener-all_listens l [] = refl
has_listener-all_listens l (info ∷ infos) =
    has_listener-append l info.listen_infos (all_listens infos)
    ∙ ap (λ b. has_listener l info.listen_infos || b) (has_listener-all_listens l infos)

-- What the central server is told of a configuration: the listeners are those that some server of
-- it has, and the types are those that some server of it connects to, in order and each once.
register_data_lem :
    (sid : ℕ) (infos : List Configured)
    → (let told = (register_data sid infos).1 in
        ((l : Listener) → has_listener l told.listeners ≡ listens_at l infos)
        × ((z : ℕ) → contains z told.connect_types ≡ connects_to z infos)
        × increasing told.connect_types ≡ true)
unfolding register_data listen_infos connect_types increasing contains
register_data_lem sid infos = (
  λ l. has_listener-unique_listens l (all_listens infos) ∙ has_listener-all_listens l infos,
  λ z. contains-collect_types z infos [] ∙ ground arith,
  increasing-collect_types infos [] refl,
)

-- A server that is registered with the types of such a message is told of an endpoint if and only if
-- some server of its configuration connects to the endpoint's type, and some registered server of that
-- type and id has there a listener for the type of its session.
register_data-registration :
    (sid p : ℕ) (infos : List Configured) (info : ServerInfo) (k : Kernel)
    → NoNull k.servers
    → info.connect_types ≡ (register_data sid infos).1.connect_types
    → (es : List Endpoint) × (server_regist_rs p info k ≡ some (answered p info es k))
      × ((e : Endpoint)
          → told e es ≡ (connects_to e.type infos && offered (k.at p).type e k.servers))
unfolding answered
register_data-registration sid p infos info k h types =
    let (es, answer, all) = server_regist_rs-answered p info k h in
    let (listeners, same, up) = register_data_lem sid infos in
    (
      es,
      answer,
      λ e.
          all e
          ∙ ap (λ ts. contains e.type ts && offered (k.at p).type e k.servers) types
          ∙ ap (λ b. b && offered (k.at p).type e k.servers) (same e.type),
    )
