-- ===== src/Gate/Routing.antt =====
-- The sessions of the services in GSKernel.cpp, when one closes.
use asio_utils.Base.{
  ℕ, ◌≡◌, refl, sym, ◌∙◌, ap, subst, inl, inr, List, [], ◌∷◌, ◌++◌, Option, none, some, ◌==◌,
  ==_iff, if◌then◌else◌, lookup, Once, discard, if-cases, if-both, Bool-cases, arith,
}
use asio_utils.Net.Services.{ServiceConfig, ServiceKernel, k_close}
use asio_utils.Net.Services.Connections.{removed_lem}
use asio_utils.Gate.{
  Gate, without, remove_connect_match_service, update_service_connect, handle_all, settle,
  remove_service, match_service_session, session_or_null, server_type_match_server,
}

lookup-without-none :
    (s mid : ℕ) (m : List (ℕ × ℕ)) → lookup mid m ≡ none → lookup mid (without s m) ≡ none
unfolding lookup without
lookup-without-none s mid [] h = refl
lookup-without-none s mid ((j, t) ∷ m) h = ground (arith, lookup-without-none s mid m, h)

Once-without : (s : ℕ) (m : List (ℕ × ℕ)) → Once m → Once (without s m)
unfolding Once without
Once-without s [] o = o
Once-without s ((j, t) ∷ m) (fresh, o) =
    if-cases Once (t == s) (λ e. Once-without s m o)
      (λ e. (lookup-without-none s j m fresh, Once-without s m o))

unless : ℕ → Option ℕ → Option ℕ
unless s none = none
unless s (some t) = if t == s then none else some t

lookup-without :
    (s mid : ℕ) (m : List (ℕ × ℕ)) → Once m → lookup mid (without s m) ≡ unless s (lookup mid m)
unfolding lookup without Once unless
lookup-without s mid [] o = refl
lookup-without s mid ((j, t) ∷ m) (fresh, o) =
    let r = lookup-without s mid m o in
    if-cases (λ x. lookup mid x ≡ unless s (if mid == j then some t else lookup mid m)) (t == s)
      (λ e. elim (Bool-cases (mid == j)) [
        | inl q ↦
            ap (λ i. lookup i (without s m)) ((==_iff mid j).0 q)
            ∙ lookup-without-none s j m fresh
            ∙ ap (λ b. if b then none else some t) (sym e)
            ∙ ap (λ b. unless s (if b then some t else lookup mid m)) (sym q)
        | inr q ↦ r ∙ ap (λ b. unless s (if b then some t else lookup mid m)) (sym q)
      ])
      (λ e. elim (Bool-cases (mid == j)) [
        | inl q ↦
            ap (λ b. if b then some t else lookup mid (without s m)) q
            ∙ ap (λ b. if b then none else some t) (sym e)
            ∙ ap (λ b. unless s (if b then some t else lookup mid m)) (sym q)
        | inr q ↦
            ap (λ b. if b then some t else lookup mid (without s m)) q
            ∙ r
            ∙ ap (λ b. unless s (if b then some t else lookup mid m)) (sym q)
      ])

session-unless :
    (s : ℕ) (o : Option ℕ)
    → session_or_null (unless s o) ≡ (let t = session_or_null o in if t == s then 0 else t)
unfolding unless session_or_null
session-unless s none = ground arith
session-unless s (some t) = ground arith

-- What a session of a match server leaves.
record HasLeft (s : ℕ) (g n : Gate) : Type 0 where
  matches : n.matches_services ≡ without s g.matches_services
  login : n.login_session ≡ (if g.login_session == s then 0 else g.login_session)
  kernel : n.kernel ≡ g.kernel
  sessions : n.sessions ≡ g.sessions

remove_connect-HasLeft :
    (s : ℕ) (g : Gate)
    → (g.sessions.at s).type ≡ server_type_match_server
    → HasLeft s g (remove_connect_match_service s g)
unfolding remove_connect_match_service
remove_connect-HasLeft s g match =
    let dropped : (if (g.sessions.at s).type == server_type_match_server
          then without s g.matches_services
          else g.matches_services)
        ≡ without s g.matches_services =
      ground (arith, match) in
    if-cases (HasLeft s g) (g.login_session == s)
      (λ e. record {
        matches = dropped;
        login = ap (λ b. if b then 0 else g.login_session) (sym e);
        kernel = refl;
        sessions = refl;
      })
      (λ e.
        if-both (HasLeft s g) (g.central_session == s)
          (record {
            matches = dropped;
            login = ap (λ b. if b then 0 else g.login_session) (sym e);
            kernel = refl;
            sessions = refl;
          })
          (record {
            matches = dropped;
            login = ap (λ b. if b then 0 else g.login_session) (sym e);
            kernel = refl;
            sessions = refl;
          }))

left_over : ServiceKernel → ℕ → Gate → Gate
left_over k uuid g = record g {
  kernel = record { connect_services = discard uuid k.connect_services; changes = [] };
}

remove_service-closed :
    (uuid : ℕ) (c : ServiceConfig) (g : Gate)
    → g.kernel.changes ≡ []
    → lookup uuid g.kernel.connect_services ≡ some c
    → remove_service uuid g ≡ remove_connect_match_service c.session (left_over g.kernel uuid g)
unfolding remove_service settle handle_all update_service_connect left_over
remove_service-closed uuid c g quiet found =
    ap (λ k. settle k g) (removed_lem uuid c g.kernel found)
    ∙ ap
        (λ cs.
          settle
            (record {
              connect_services = discard uuid g.kernel.connect_services;
              changes = cs ++ k_close c.session ∷ [];
            })
            g)
        quiet

-- When the session of a match server that the kernel has closes, where the kernel's log is empty
-- and the table has every match once: its matches have no session any more, the others keep
-- theirs, the kernel has the other connections only, and the table still has every match once.
-- Nothing that the sessions were given changes.
pub remove_service_lem :
    (uuid : ℕ) (c : ServiceConfig) (g : Gate)
    → Once g.matches_services
    → g.kernel.changes ≡ []
    → lookup uuid g.kernel.connect_services ≡ some c
    → (g.sessions.at c.session).type ≡ server_type_match_server
    → let n = remove_service uuid g in
      Once n.matches_services
      × ((mid : ℕ)
          → match_service_session mid n
            ≡ (let s = match_service_session mid g in if s == c.session then 0 else s))
      × (n.kernel.connect_services ≡ discard uuid g.kernel.connect_services)
      × (n.login_session ≡ (if g.login_session == c.session then 0 else g.login_session))
      × (n.sessions ≡ g.sessions)
unfolding match_service_session left_over
remove_service_lem uuid c g once quiet found match =
    let s = c.session in
    let m = g.matches_services in
    subst
      (λ n.
        Once n.matches_services
        × ((mid : ℕ)
            → session_or_null (lookup mid n.matches_services)
              ≡ (let t = session_or_null (lookup mid m) in if t == s then 0 else t))
        × (n.kernel.connect_services ≡ discard uuid g.kernel.connect_services)
        × (n.login_session ≡ (if g.login_session == s then 0 else g.login_session))
        × (n.sessions ≡ g.sessions))
      (sym (remove_service-closed uuid c g quiet found))
      (let h = remove_connect-HasLeft s (left_over g.kernel uuid g) match in
        (
          subst Once (sym h.matches) (Once-without s m once),
          λ mid.
              ap (λ r. session_or_null (lookup mid r)) h.matches
              ∙ ap session_or_null (lookup-without s mid m once)
              ∙ session-unless s (lookup mid m),
          ap (λ (k : ServiceKernel). k.connect_services) h.kernel,
          h.login,
          h.sessions,
        ))
