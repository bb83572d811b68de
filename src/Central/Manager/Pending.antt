-- ===== src/Central/Manager/Pending.antt =====
-- The changes of CSMatchManager.cpp that wait for the next round: at most one for each service.
use asio_utils.Base.{
  if-both, if-cases, ℕ, suc, ◌+◌, ◌≤◌, ◌≡◌, refl, sym, ap, ◌∙◌, true, List, [], ◌∷◌, ◌++◌, none,
  ◌==◌, if◌then◌else◌, arith, subst,
}
use asio_utils.Central.Distribution.{MatchDisService, find}
use asio_utils.Central.Manager.{
  Manager, ChangedService, removed, others, was_added, is_added, update_match_service,
  connected_change, removed_changes, remove_match_service, update_matches_or_service, start_timer,
  log,
}

-- How many changes are about a service.
unfoldable pub about : ℕ → List ChangedService → ℕ
about sid [] = 0
about sid (c ∷ cs) = let rest = about sid cs in if c.service.sid == sid then suc rest else rest

about-append :
    (sid : ℕ) (cs ds : List ChangedService) → about sid (cs ++ ds) ≡ about sid cs + about sid ds
unfolding about
about-append sid [] ds = omega arith
about-append sid (c ∷ cs) ds = ground (arith, about-append sid cs ds)

about-others :
    (sid k : ℕ) (cs : List ChangedService)
    → about sid (others k cs) ≡ (if k == sid then 0 else about sid cs)
unfolding about others
about-others sid k [] = ground arith
about-others sid k (c ∷ cs) = ground (arith, about-others sid k cs)

changes_kept : (now : ℕ) (m : Manager) → (update_matches_or_service now m).changes ≡ m.changes
unfolding update_matches_or_service start_timer log
changes_kept now m = ground arith

abbrev pub Single : List ChangedService → Type 0
Single cs = (sid : ℕ) → about sid cs ≤ 1

others-Single : (k : ℕ) (cs : List ChangedService) → Single cs → Single (others k cs)
others-Single k cs s sid = ground (arith, about-others sid k cs, s sid)

replaced-Single :
    (k : ℕ) (cs : List ChangedService) (c : ChangedService)
    → c.service.sid ≡ k
    → Single cs
    → Single (others k cs ++ c ∷ [])
unfolding about
replaced-Single k cs c e s sid =
    ground (arith, e, about-append sid (others k cs) (c ∷ []), about-others sid k cs, s sid)

others_again :
    (k : ℕ) (cs : List ChangedService) (c : ChangedService)
    → c.service.sid ≡ k
    → others k (others k cs ++ c ∷ []) ≡ others k cs
unfolding others
others_again k [] c e = ground (arith, e)
others_again k (d ∷ cs) c e = ground (arith, others_again k cs c e)

others_twice : (k : ℕ) (cs : List ChangedService) → others k (others k cs) ≡ others k cs
unfolding others
others_twice k [] = refl
others_twice k (d ∷ cs) = ground (arith, others_twice k cs)

updated :
    (now : ℕ) (key : MatchDisService) (m : Manager)
    → (update_match_service now key m).changes
      ≡ others key.sid m.changes ++ connected_change now key m ∷ []
unfolding update_match_service
updated now key m =
    changes_kept now
      (record m { changes = others key.sid m.changes ++ connected_change now key m ∷ [] })

lost :
    (now : ℕ) (key : MatchDisService) (m : Manager)
    → (remove_match_service now key m).changes ≡ removed_changes now key m.changes
unfolding remove_match_service
lost now key m = changes_kept now (record m { changes = removed_changes now key m.changes })

about-updated :
    (k : ℕ) (cs : List ChangedService) (c : ChangedService)
    → c.service.sid ≡ k
    → about k (others k cs ++ c ∷ []) ≡ 1
unfolding about
about-updated k cs c e =
    ground (arith, e, about-append k (others k cs) (c ∷ []), about-others k k cs)

removed_changes-Single :
    (now : ℕ) (key : MatchDisService) (cs : List ChangedService)
    → Single cs
    → Single (removed_changes now key cs)
unfolding removed_changes
removed_changes-Single now key cs s =
    if-both Single (was_added key.sid cs) (others-Single key.sid cs s)
      (replaced-Single key.sid cs (record { type = removed; service = key; stamp = now }) refl s)

others-removed_changes :
    (now : ℕ) (key : MatchDisService) (cs : List ChangedService)
    → others key.sid (removed_changes now key cs) ≡ others key.sid cs
unfolding removed_changes
others-removed_changes now key cs =
    if-both (λ ds. others key.sid ds ≡ others key.sid cs) (was_added key.sid cs)
      (others_twice key.sid cs)
      (others_again key.sid cs (record { type = removed; service = key; stamp = now }) refl)

was_added-others :
    (k : ℕ) (cs : List ChangedService) (c : ChangedService)
    → c.service.sid ≡ k
    → was_added k (others k cs ++ c ∷ []) ≡ is_added c.type
unfolding was_added others
was_added-others k [] c e = ground (arith, e)
was_added-others k (d ∷ cs) c e =
    let r = was_added-others k cs c e in
    if-cases (λ ds. was_added k (ds ++ c ∷ []) ≡ is_added c.type) (d.service.sid == k) (λ q. r)
      (λ q. ground (arith, q, r))

-- A service that connects and is lost before the next round.
flap-cases :
    (now later : ℕ) (key : MatchDisService) (m : Manager)
    → let left = others key.sid m.changes in
      let change : ChangedService = record { type = removed; service = key; stamp = later } in
      (remove_match_service later key (update_match_service now key m)).changes
      ≡ (if is_added (connected_change now key m).type then left else left ++ change ∷ [])
unfolding connected_change removed_changes
flap-cases now later key m =
    let c = connected_change now key m in
    let n = update_match_service now key m in
    let left = others key.sid m.changes in
    let change : ChangedService = record { type = removed; service = key; stamp = later } in
    lost later key n
    ∙ ap (removed_changes later key) (updated now key m)
    ∙ ap
        (λ b.
          if b
          then others key.sid (left ++ c ∷ [])
          else others key.sid (left ++ c ∷ []) ++ change ∷ [])
        (was_added-others key.sid m.changes c refl)
    ∙ ap (λ cs. if is_added c.type then cs else cs ++ change ∷ [])
        (others_again key.sid m.changes c refl)

-- A service that the map does not have, and that connects, and is lost before the next round, leaves no
-- change: what waits is what was waiting for the other services.
pub flap_lem :
    (now later : ℕ) (key : MatchDisService) (m : Manager)
    → find key.sid m.services ≡ none
    → (remove_match_service later key (update_match_service now key m)).changes
      ≡ others key.sid m.changes
unfolding connected_change is_added
flap_lem now later key m e =
    let left = others key.sid m.changes in
    let change : ChangedService = record { type = removed; service = key; stamp = later } in
    let fresh : is_added (connected_change now key m).type ≡ true =
      rw (e, is_added, connected_change) refl in
    flap-cases now later key m ∙ ap (λ b. if b then left else left ++ change ∷ []) fresh

-- Where at most one change of each service waits, this is so after a service connects, or loses its
-- connection; a connection leaves exactly one for that service, and either leaves those of the other
-- services as they were. When the service connects and is lost before the next round, its loss is all that
-- waits for it where the map has it, and nothing where it does not.
pub pending_lem :
    (now later : ℕ) (key : MatchDisService) (m : Manager)
    → Single m.changes
    → Single (update_match_service now key m).changes
      × Single (remove_match_service now key m).changes
      × (about key.sid (update_match_service now key m).changes ≡ 1)
      × (others key.sid (update_match_service now key m).changes ≡ others key.sid m.changes)
      × (others key.sid (remove_match_service now key m).changes ≡ others key.sid m.changes)
      × (let left = others key.sid m.changes in
          let change : ChangedService = record { type = removed; service = key; stamp = later } in
          (remove_match_service later key (update_match_service now key m)).changes
          ≡ (if is_added (connected_change now key m).type then left else left ++ change ∷ []))
unfolding connected_change
pending_lem now later key m s =
    let c = connected_change now key m in
    let u = updated now key m in
    let l = lost now key m in
    (
      subst Single (sym u) (replaced-Single key.sid m.changes c refl s),
      subst Single (sym l) (removed_changes-Single now key m.changes s),
      ap (about key.sid) u ∙ about-updated key.sid m.changes c refl,
      ap (others key.sid) u ∙ others_again key.sid m.changes c refl,
      ap (others key.sid) l ∙ others-removed_changes now key m.changes,
      flap-cases now later key m,
    )
