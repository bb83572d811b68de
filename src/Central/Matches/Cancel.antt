-- ===== src/Central/Matches/Cancel.antt =====
-- `cancelMatch` of CSMatchManager.cpp.
use mathlib.Core.Option.{some-injective}
use asio_utils.Base.{
  ℕ, ◌+◌, ◌≤◌, ◌≡◌, ◌≢◌, refl, sym, ap, ◌∙◌, Bool, true, false, List, [], ◌∷◌, Option, none, some,
  ◌==◌, ==_iff, if◌then◌else◌, arith, subst, bind-some, ltb, ◌>>=◌, Option-cases, inl, inr,
  Bool-cases, count,
}
use asio_utils.Central.Distribution.{Service, find, replace}
use asio_utils.Central.Distribution.Keeps.{Ordered, held, held-replace}
use asio_utils.Central.Manager.Keys.{
  count-remove, matches_of, get_dist_match-find, get_dist_match-replace,
}
use asio_utils.Central.Manager.{Manager, Match, remove, contains, get_dist_match, log}
use asio_utils.Central.Matches.{
  k_none_error, k_match_started, state_ready, owner, get_service, notify, withdraw, take_back,
  cancelled, cancel_found, cancel_match, get_match,
}

contains_count : (a : ℕ) (xs : List ℕ) → contains a xs ≡ true → 1 ≤ count a xs
unfolding contains count
contains_count a [] h = cc
contains_count a (x ∷ xs) h = ground (arith, contains_count a xs)

lacks_count : (a : ℕ) (xs : List ℕ) → contains a xs ≡ false → count a xs ≡ 0
unfolding contains count
lacks_count a [] h = refl
lacks_count a (x ∷ xs) h = ground (arith, lacks_count a xs)

owner-none : (a : ℕ) (m : List Service) → owner a m ≡ none → held a m ≡ 0
unfolding owner held
owner-none a [] h = refl
owner-none a (e ∷ m) h = ground (arith, owner-none a m, lacks_count a e.mids)

owner_low :
    {low : ℕ} (a sid : ℕ) (m : List Service) → Ordered low m → owner a m ≡ some sid → low ≤ sid
unfolding owner
owner_low a sid [] o h = cc
owner_low a sid (e ∷ m) (Ordered.cons l o) h = ground (arith, owner_low a sid m o)

owner_found :
    {low : ℕ} (a sid : ℕ) (m : List Service)
    → Ordered low m
    → owner a m ≡ some sid
    → (mids : List ℕ) × (find sid m ≡ some mids) × (1 ≤ count a mids)
unfolding owner find
owner_found a sid [] o h = cc
owner_found a sid (e ∷ m) (Ordered.cons l o) h = elim (Bool-cases (contains a e.mids)) [
  | inl t ↦ (e.mids, ground (arith, t), contains_count a e.mids t)
  | inr f ↦
      let later : owner a m ≡ some sid = ground (arith, f) in
      let low = owner_low a sid m o later in
      let (mids, g, k) = owner_found a sid m o later in (mids, ground (arith, g, low), k)
]

-- The match is with no service any more, and nothing else has moved.
record Withdrawn (mid : ℕ) (m n : Manager) : Type 0 where
  same_undist : n.undist ≡ m.undist
  not_held : held mid n.services ≡ 0
  others_held : (x : ℕ) → x ≢ mid → held x n.services ≡ held x m.services
  same_place :
      (x sid : ℕ)
      → x ≢ mid
      → count x (get_dist_match n.services sid) ≡ count x (get_dist_match m.services sid)

notified :
    (mid : ℕ) (m r n : Manager) (changed : List (ℕ × List ℕ))
    → Withdrawn mid m r
    → notify r changed ≡ some n
    → Withdrawn mid m n
unfolding notify log
notified mid m r n changed w e =
    let same_services : n.services ≡ r.services = ground (arith, e) in
    let undist : n.undist ≡ r.undist = ground (arith, e) in
    record {
      same_undist = undist ∙ w.same_undist;
      not_held = ap (held mid) same_services ∙ w.not_held;
      others_held = λ x h. ap (held x) same_services ∙ w.others_held x h;
      same_place = λ x sid h.
          ap (λ m'. count x (get_dist_match m' sid)) same_services ∙ w.same_place x sid h;
    }

replaced-Withdrawn :
    (mid sid : ℕ) (m : Manager) (mids : List ℕ)
    → find sid m.services ≡ some mids
    → 1 ≤ count mid mids
    → held mid m.services ≤ 1
    → Withdrawn mid m (record m { services = replace sid (remove mid mids) m.services })
unfolding matches_of
replaced-Withdrawn mid sid m mids f c h = record {
  same_undist = refl;
  not_held = ground (
    arith,
    held-replace mid sid mids (remove mid mids) m.services f,
    count-remove mid mid mids,
    c,
    h,
  );
  others_held = λ x ne.
      ground (
        arith,
        held-replace x sid mids (remove mid mids) m.services f,
        count-remove x mid mids,
        ne,
      );
  same_place = λ x s ne. elim (Bool-cases (s == sid)) [
    | inl e ↦ ground (
      arith,
      e,
      get_dist_match-replace sid s mids (remove mid mids) m.services f,
      ap (λ t. count x (get_dist_match m.services t)) ((==_iff s sid).0 e),
      ap (count x) (get_dist_match-find m.services sid ∙ ap matches_of f),
      count-remove x mid mids,
      ne,
    )
    | inr e ↦ ground (arith, e, get_dist_match-replace sid s mids (remove mid mids) m.services f)
  ];
}

unmoved : (mid : ℕ) (m n : Manager) → held mid m.services ≡ 0 → some m ≡ some n → Withdrawn mid m n
unmoved mid m n h e = subst (Withdrawn mid m) (some-injective _ _ e) (record {
  same_undist = refl;
  not_held = h;
  others_held = λ x ne. refl;
  same_place = λ x sid ne. refl;
})

withdraw-Withdrawn :
    (mid sid : ℕ) (m n : Manager)
    → Ordered 1 m.services
    → held mid m.services ≤ 1
    → owner mid m.services ≡ some sid
    → take_back mid m (some sid) ≡ some n
    → Withdrawn mid m n
unfolding take_back withdraw
withdraw-Withdrawn mid sid m n o once w e =
    let (mids, f, c) = owner_found mid sid m.services o w in
    let low = owner_low mid sid m.services o w in
    let kept = remove mid mids in
    let r : Manager = record m { services = replace sid kept m.services } in
    let real : ltb 0 sid ≡ true = ground (arith, low) in
    notified mid m r n ((sid, kept) ∷ []) (replaced-Withdrawn mid sid m mids f c once) (
      sym (ap (withdraw mid m sid) f)
      ∙ sym (ap (λ b. if b then withdraw mid m sid (find sid m.services) else some m) real)
      ∙ e)

take_back-Withdrawn :
    (mid : ℕ) (m n : Manager)
    → Ordered 1 m.services
    → held mid m.services + count mid m.undist ≤ 1
    → take_back mid m (get_service mid m) ≡ some n
    → Withdrawn mid m n
unfolding take_back get_service
take_back-Withdrawn mid m n o once e = elim (Bool-cases (contains mid m.undist)) [
  | inl t ↦
      let c = contains_count mid m.undist t in
      let g : get_service mid m ≡ none = ground (arith, t) in
      unmoved mid m n (omega (arith, once, c)) (sym (ap (take_back mid m) g) ∙ e)
  | inr f ↦
      let g : get_service mid m ≡ owner mid m.services = ground (arith, f) in
      elim (Option-cases (owner mid m.services)) [
        | inl w ↦
            unmoved mid m n (owner-none mid m.services w) (sym (ap (take_back mid m) (g ∙ w)) ∙ e)
        | inr (sid, w) ↦
            withdraw-Withdrawn mid sid m n o (omega (arith, once)) w
              (sym (ap (take_back mid m) (g ∙ w)) ∙ e)
      ]
]

code : ℕ × Manager → ℕ
code p = p.0

no_error :
    (mid reason : ℕ) (m n : Manager) (o : Option Match)
    → cancel_found mid reason m o ≡ some (k_none_error, n)
    → (r : Manager) × (take_back mid m (get_service mid m) ≡ some r)
      × (cancelled mid reason r ≡ n)
      × ((x : Match) × (o ≡ some x) × (x.match_state ≤ state_ready))
unfolding cancel_found
no_error mid reason m n none e = ground (arith, ap code (some-injective _ _ e))
no_error mid reason m n (some x) e =
    let done = take_back mid m (get_service mid m) in
    let finish : Manager → Option (ℕ × Manager) =
      λ r. some (k_none_error, cancelled mid reason r) in
    let whole : Bool → Option (ℕ × Manager) =
      λ b. if b then some (k_match_started, m) else (done >>= finish) in
    elim (Bool-cases (ltb state_ready x.match_state)) [
      | inl t ↦ let bad = some-injective _ _ (sym (ap whole t) ∙ e) in ground (arith, ap code bad)
      | inr f ↦
          let (r, g, h) = bind-some done finish (sym (ap whole f) ∙ e) in
          let same = some-injective _ _ h in
          (r, g, ap (λ (p : ℕ × Manager). p.1) same, (x, refl, ground (arith, f)))
    ]

-- Where the ids of the services are positive and in order, and the match is in one place at most, a
-- cancellation that returns no error takes the match out of every service and out of the
-- undistributed matches. Every other match stays with each service that has it, or undistributed, as
-- often as it was; and the match was there and had not started.
pub cancel_match_lem :
    (mid reason : ℕ) (m n : Manager)
    → Ordered 1 m.services
    → held mid m.services + count mid m.undist ≤ 1
    → cancel_match mid reason m ≡ some (k_none_error, n)
    → (held mid n.services + count mid n.undist ≡ 0)
      × ((x : ℕ)
          → x ≢ mid
          → ((sid : ℕ)
              → count x (get_dist_match n.services sid) ≡ count x (get_dist_match m.services sid))
            × (held x n.services ≡ held x m.services)
            × (count x n.undist ≡ count x m.undist))
      × ((x : Match) × (get_match m.matches mid ≡ some x) × (x.match_state ≤ state_ready))
unfolding cancel_match cancelled log
cancel_match_lem mid reason m n o once e =
    let (r, g, h, x) = no_error mid reason m n (get_match m.matches mid) e in
    let w = take_back-Withdrawn mid m r o once g in
    let services : n.services ≡ r.services = ap (λ (k : Manager). k.services) (sym h) in
    let undist : n.undist ≡ remove mid m.undist =
      ap (λ (k : Manager). k.undist) (sym h) ∙ ap (remove mid) w.same_undist in
    (
      ground (
        arith,
        ap (held mid) services,
        ap (count mid) undist,
        w.not_held,
        count-remove mid mid m.undist,
      ),
      λ x ne. (
        λ sid. ap (λ m'. count x (get_dist_match m' sid)) services ∙ w.same_place x sid ne,
        ap (held x) services ∙ w.others_held x ne,
        ground (arith, ap (count x) undist, count-remove x mid m.undist, ne),
      ),
      x,
    )
