-- ===== src/Gate/Matches.antt =====
-- The table of the match servers in GSKernel.cpp, after a notification.
use mathlib.Core.Option.{none-ne-some, some-injective}
use asio_utils.Base.{
  ℕ, ◌≡◌, ◌≢◌, refl, sym, ◌∙◌, ap, ◌⊎◌, inl, inr, true, List, [], ◌∷◌, some, ◌==◌, ==_iff,
  if◌then◌else◌, lookup, lookup-skip, Bool-cases, arith,
}
use asio_utils.Net.Services.{ServiceKernel, connect_service_session}
use asio_utils.Gate.{
  Gate, match_distr, route_service, route_all, distribute_matches_notify, match_service_session,
  session_or_null,
}
use asio_utils.Gate.Table.{
  given_to, has, lookup-match_distr, or_else-none, InOrder, match_distr-InOrder,
  lookup-route_service,
}

-- A service that is given the match, and its session.
pub record IsServedBy (kernel : ServiceKernel) (m : List (ℕ × List ℕ)) (mid s : ℕ) : Type 0 where
  pub sid : ℕ
  pub mids : List ℕ
  pub given : lookup sid m ≡ some mids
  pub holds : has mid mids ≡ true
  pub session : connect_service_session sid kernel.connect_services ≡ s
  pub real : s ≢ 0

-- No service that is given the match has a session.
unfoldable pub IsUnserved : ServiceKernel → List (ℕ × List ℕ) → ℕ → Type 0
IsUnserved kernel m mid =
    (sid : ℕ) (mids : List ℕ)
    → lookup sid m ≡ some mids
    → has mid mids ≡ true
    → connect_service_session sid kernel.connect_services ≡ 0

IsUnserved-cons :
    (kernel : ServiceKernel) (sid : ℕ) (mids : List ℕ) (m : List (ℕ × List ℕ)) (mid : ℕ)
    → IsUnserved kernel m mid
    → (has mid mids ≡ true → connect_service_session sid kernel.connect_services ≡ 0)
    → IsUnserved kernel ((sid, mids) ∷ m) mid
unfolding IsUnserved lookup
IsUnserved-cons kernel sid mids m mid u z k x e h = elim (Bool-cases (k == sid)) [
  | inl q ↦
      let same = some-injective _ _ (ap (λ b. if b then some mids else lookup k m) (sym q) ∙ e) in
      ap (λ j. connect_service_session j kernel.connect_services) ((==_iff k sid).0 q)
      ∙ z (ap (has mid) same ∙ h)
  | inr q ↦ u k x (ap (λ b. if b then some mids else lookup k m) (sym q) ∙ e) h
]

route_all_lem :
    (kernel : ServiceKernel) (m : List (ℕ × List ℕ)) (mid : ℕ) (routes : List (ℕ × ℕ))
    → InOrder m
    → ((s : ℕ) × IsServedBy kernel m mid s × (lookup mid (route_all kernel m routes) ≡ some s))
      ⊎ (IsUnserved kernel m mid × (lookup mid (route_all kernel m routes) ≡ lookup mid routes))
unfolding route_all IsUnserved InOrder lookup
route_all_lem kernel [] mid routes o = inr (λ sid mids e. absurd (none-ne-some mids e), refl)
route_all_lem kernel ((sid, mids) ∷ m) mid routes (fresh, above, o) =
    let s = connect_service_session sid kernel.connect_services in
    let routed = lookup-route_service s mid mids routes in
    elim (route_all_lem kernel m mid (route_service s mids routes) o) [
      | inl (t, w, e) ↦ inl (
        t,
        record {
          sid = w.sid;
          mids = w.mids;
          given = lookup-skip w.sid sid mids w.mids m fresh w.given;
          holds = w.holds;
          session = w.session;
          real = w.real;
        },
        e,
      )
      | inr (none_left, e) ↦ elim (Bool-cases (s == 0)) [
        | inl z ↦ inr (
          IsUnserved-cons kernel sid mids m mid none_left (λ h. (==_iff s 0).0 z),
          e
              ∙ routed
              ∙ ap
                  (λ b.
                    if b
                    then lookup mid routes
                    else if has mid mids
                    then some s
                    else lookup mid routes)
                  z,
        )
        | inr z ↦ elim (Bool-cases (has mid mids)) [
          | inl h ↦ inl (
            s,
            record {
              sid = sid;
              mids = mids;
              given = ground arith;
              holds = h;
              session = refl;
              real = ground (arith, z);
            },
            e ∙ routed ∙ ground (arith, z, h),
          )
          | inr h ↦ inr (
            IsUnserved-cons kernel sid mids m mid none_left (λ t. absurd (ground (arith, t, h))),
            e ∙ routed ∙ ground (arith, z, h),
          )
        ]
      ]
    ]

-- After a notification a match has the session of a connected service that the notification gives it
-- to, the last entry of each service counting. If it gives the match to no connected service, the match
-- keeps the session that it had, though it may have been taken from it.
pub distribute_matches_notify_lem :
    (notify : List (ℕ × List ℕ)) (g : Gate) (mid : ℕ)
    → let n = distribute_matches_notify notify g in
      ((sid : ℕ) → lookup sid n.matches_distri_maps ≡ given_to sid notify)
      × (((s : ℕ) × IsServedBy g.kernel n.matches_distri_maps mid s
            × (match_service_session mid n ≡ s))
          ⊎ (IsUnserved g.kernel n.matches_distri_maps mid
              × (match_service_session mid n ≡ match_service_session mid g)))
unfolding distribute_matches_notify match_service_session session_or_null InOrder
distribute_matches_notify_lem notify g mid = (
  λ sid. lookup-match_distr sid notify [] ∙ or_else-none (given_to sid notify),
  elim (route_all_lem g.kernel (match_distr notify []) mid g.matches_services
      (match_distr-InOrder notify [] tt)) [
        | inl (s, w, e) ↦ inl (s, w, ap session_or_null e)
        | inr (u, e) ↦ inr (u, ap session_or_null e)
      ],
)
