-- ===== src/Net/Services/Connections.antt =====
-- ServiceKernel.cpp: the endpoints of the connections.
use mathlib.Core.Option.{some-injective, none-ne-some}
use asio_utils.Base.{
  ℕ, ◌≡◌, ◌≢◌, refl, sym, ◌∙◌, ap, subst, ◌≤◌, true, false, ◌||◌, List, [], ◌∷◌, ◌++◌, Option, none,
  some, ◌==◌, if◌then◌else◌, lookup, assign, discard, lookup-assign, lookup-discard, Once-assign,
  Once-discard, Bool-cases, ==_iff, inl, inr, arith,
}
use asio_utils.Net.Services.{
  ServiceConfig, ServiceKernel, k_close, invalid_uuid, same_endpoint, check_connect_service,
  add_new_connect, remove_service_session, renew, close_found, note, connect_session, session_of,
  connect_new,
}
use asio_utils.Net.Services.Endpoints.{
  connections_to, IsValid, connections-same, connections-assign_new, connections-assign_old,
  connections-discard, check-none, check-some,
}

close_found-IsValid :
    (uuid : ℕ) (k : ServiceKernel) (o : Option ServiceConfig)
    → IsValid k.connect_services
    → IsValid (close_found uuid k o).connect_services
unfolding close_found
close_found-IsValid uuid k none v = v
close_found-IsValid uuid k (some c) v = record {
  once = Once-discard uuid k.connect_services v.once;
  no_invalid = lookup-discard uuid invalid_uuid k.connect_services ∙ ground (arith, v.no_invalid);
  one_each = λ c. omega (arith, v.one_each c, connections-discard c uuid k.connect_services);
}

pub remove_service_session-IsValid :
    (uuid : ℕ) (k : ServiceKernel)
    → IsValid k.connect_services
    → IsValid (remove_service_session uuid k).connect_services
unfolding remove_service_session
remove_service_session-IsValid uuid k v =
    close_found-IsValid uuid k (lookup uuid k.connect_services) v

-- What `removeServiceSession` does for a session that is there.
pub removed_lem :
    (uuid : ℕ) (c : ServiceConfig) (k : ServiceKernel)
    → lookup uuid k.connect_services ≡ some c
    → remove_service_session uuid k ≡ record {
      connect_services = discard uuid k.connect_services;
      changes = k.changes ++ k_close c.session ∷ [];
    }
unfolding remove_service_session close_found note
removed_lem uuid c k e = ap (close_found uuid k) e

-- The endpoint of the configuration has one connection, with its session, and its service id.
pub record IsConnected (config : ServiceConfig) (session : ℕ) (k : ServiceKernel) : Type 0 where
  pub valid : IsValid k.connect_services
  pub once : connections_to config k.connect_services ≡ 1
  pub uuid : ℕ
  pub entry : ServiceConfig
  pub found : lookup uuid k.connect_services ≡ some entry
  pub same : same_endpoint entry config ≡ true
  pub new_sid : entry.sid ≡ config.sid
  pub with_session : entry.session ≡ session

same_self : (c : ServiceConfig) (p : ℕ) → same_endpoint (record c { session = p }) c ≡ true
unfolding same_endpoint
same_self c p = ground arith

assigned_new :
    (k : ℕ) (d : ServiceConfig) (m : List (ℕ × ServiceConfig))
    → IsValid m
    → lookup k m ≡ none
    → k ≢ invalid_uuid
    → connections_to d m ≡ 0
    → IsValid (assign k d m)
assigned_new k d m v f ne z = record {
  once = Once-assign k d m v.once;
  no_invalid = lookup-assign k invalid_uuid d m ∙ ground (arith, ne, v.no_invalid);
  one_each = λ c. elim (Bool-cases (same_endpoint d c)) [
    | inl e ↦ ground (arith, connections-assign_new c d k m f, z, e, connections-same d c m e)
    | inr e ↦ ground (arith, connections-assign_new c d k m f, v.one_each c, e)
  ];
}

key_valid :
    (k : ℕ) (old : ServiceConfig) (m : List (ℕ × ServiceConfig))
    → IsValid m
    → lookup k m ≡ some old
    → k ≢ invalid_uuid
key_valid k old m v l e = none-ne-some old (sym v.no_invalid ∙ ap (λ x. lookup x m) (sym e) ∙ l)

assigned_old :
    (k : ℕ) (d old : ServiceConfig) (m : List (ℕ × ServiceConfig))
    → IsValid m
    → lookup k m ≡ some old
    → ((c : ServiceConfig) → same_endpoint d c ≡ same_endpoint old c)
    → IsValid (assign k d m)
assigned_old k d old m v l s = record {
  once = Once-assign k d m v.once;
  no_invalid =
      lookup-assign k invalid_uuid d m ∙ ground (arith, key_valid k old m v l, v.no_invalid);
  one_each = λ c. omega (arith, connections-assign_old c d old k m l (s c), v.one_each c);
}

at_least_one :
    (c d : ServiceConfig) (k : ℕ) (m : List (ℕ × ServiceConfig))
    → lookup k m ≡ some d
    → same_endpoint d c ≡ true
    → 1 ≤ connections_to c m
unfolding lookup connections_to
at_least_one c d k [] l s = absurd (none-ne-some d l)
at_least_one c d k ((j, e) ∷ m) l s = elim (Bool-cases (k == j)) [
  | inl b ↦
      let t : e ≡ d = some-injective _ _ (ap (λ b. if b then some e else lookup k m) (sym b) ∙ l) in
      ground (arith, ap (λ x. same_endpoint x c) t, s)
  | inr b ↦
      let r = at_least_one c d k m (ap (λ b. if b then some e else lookup k m) (sym b) ∙ l) s in
      ground (arith, r)
]

IsConnected-new :
    (config : ServiceConfig) (session fresh : ℕ) (k : ServiceKernel)
    → IsValid k.connect_services
    → lookup fresh k.connect_services ≡ none
    → fresh ≢ invalid_uuid
    → check_connect_service config k.connect_services ≡ invalid_uuid
    → IsConnected config session (connect_new config session fresh k)
unfolding connect_new note
IsConnected-new config session fresh k v f ne e =
    let m = k.connect_services in
    let d = record config { session = session } in
    let z = check-none config m v.no_invalid e in
    let s = same_self config session in
    record {
      valid = assigned_new fresh d m v f ne (connections-same d config m s ∙ z);
      once = connections-assign_new config d fresh m f ∙ ground (arith, z, s);
      uuid = fresh;
      entry = d;
      found = lookup-assign fresh fresh d m ∙ ground arith;
      same = s;
      new_sid = refl;
      with_session = refl;
    }

pub sid_apart :
    (d : ServiceConfig) (s : ℕ) (c : ServiceConfig)
    → same_endpoint (record d { sid = s }) c ≡ same_endpoint d c
unfolding same_endpoint
sid_apart d s c = refl

IsConnected-old :
    (config old : ServiceConfig) (uuid : ℕ) (k : ServiceKernel)
    → IsValid k.connect_services
    → lookup uuid k.connect_services ≡ some old
    → same_endpoint old config ≡ true
    → (n : ServiceKernel) × (renew k uuid config (some old) ≡ some n)
      × IsConnected config old.session n
unfolding renew note
IsConnected-old config old uuid k v l s =
    let m = k.connect_services in
    let d = record old { sid = config.sid } in
    let valid = assigned_old uuid d old m v l (λ c. sid_apart old config.sid c) in
    let found : lookup uuid (assign uuid d m) ≡ some d =
      lookup-assign uuid uuid d m ∙ ground arith in
    let same = sid_apart old config.sid config ∙ s in
    (
      _,
      refl,
      record {
        valid = valid;
        once =
            omega (
              arith,
              valid.one_each config,
              at_least_one config d uuid (assign uuid d m) found same,
            );
        uuid = uuid;
        entry = d;
        found = found;
        same = same;
        new_sid = refl;
        with_session = refl;
      },
    )

-- With a service id, and a session whose id is fresh, `addNewConnect` returns, keeps every id valid and
-- used once and every endpoint connected at most once, and leaves one connection to the endpoint,
-- with the new service id: the session that was connected to it, or the new one if there was none.
pub add_new_connect_lem :
    (config : ServiceConfig) (session fresh : ℕ) (k : ServiceKernel)
    → IsValid k.connect_services
    → config.sid ≢ invalid_uuid
    → fresh ≢ invalid_uuid
    → lookup fresh k.connect_services ≡ none
    → (n : ServiceKernel) × (add_new_connect config session fresh k ≡ some n)
      × IsConnected config
          (let uuid = check_connect_service config k.connect_services in
            if uuid == invalid_uuid then session else connect_session uuid k.connect_services)
          n
unfolding add_new_connect connect_session session_of
add_new_connect_lem config session fresh k v valid ne new =
    let m = k.connect_services in
    let uuid = check_connect_service config m in
    elim (Bool-cases (uuid == invalid_uuid)) [
      | inl e ↦
          let c =
            IsConnected-new config session fresh k v new ne ((==_iff uuid invalid_uuid).0 e) in
          (
            connect_new config session fresh k,
            ap
                (λ b.
                  if b || config.sid == invalid_uuid
                  then some (connect_new config session fresh k)
                  else renew k uuid config (lookup uuid m))
                e,
            subst
                (λ b.
                  IsConnected config (if b then session else connect_session uuid m)
                    (connect_new config session fresh k))
                (sym e) c,
          )
      | inr e ↦
          let (old, l, s) = check-some config m v.once (λ i. ground (arith, i, e)) in
          let no : (uuid == invalid_uuid || config.sid == invalid_uuid) ≡ false =
            ground (arith, e, valid) in
          let (n, r, c) = IsConnected-old config old uuid k v l s in
          (
            n,
            ap
                  (λ b.
                    if b
                    then some (connect_new config session fresh k)
                    else renew k uuid config (lookup uuid m))
                  no
                ∙ ap (renew k uuid config) l
                ∙ r,
            subst (λ b. IsConnected config (if b then session else connect_session uuid m) n)
                (sym e) (subst (λ o. IsConnected config (session_of o) n) (sym l) c),
          )
    ]
