-- ===== src/MatchServer/Counts.antt =====
-- The players of each match, over any sequence of updates and joins.
use asio_utils.Base.{
  ℕ, ◌+◌, ◌-◌, ◌%◌, ◌^◌, ◌≡◌, refl, sym, ◌∙◌, ap, inl, inr, Bool, true, false, List, [], ◌∷◌,
  Option, none, some, ◌==◌, ==_iff, if◌then◌else◌, lookup, assign, lookup-assign, Bool-cases, arith,
}
use asio_utils.MatchServer.{
  MatchManager, count_found, subscript_found, subscript, carry, update_matches, no_match,
  change_found, join_match, unjoin_match, JoinRequest,
}

pub data Operation : Type 0 where
  update : List ℕ → Operation
  join unjoin : JoinRequest → Operation

unfoldable pub run : List Operation → MatchManager → MatchManager
unfolding update_matches join_match unjoin_match
run [] m = m
run (update mids ∷ ops) m = run ops (update_matches mids m)
run (join rq ∷ ops) m = run ops (join_match rq.uid rq.mid rq.mtype m).1
run (unjoin rq ∷ ops) m = run ops (unjoin_match rq.uid rq.mid rq.mtype m).1

has : ℕ → List ℕ → Bool
has x [] = false
has x (y ∷ ys) = let rest = has x ys in if x == y then true else rest

pub add : ℕ → Option ℕ → Option ℕ
add change none = none
add change (some n) = some ((n + change) % 2 ^ 32)

-- The players of one match, `none` where the server does not have it: an update drops it, keeps its
-- players, or brings it with none.
unfoldable pub players : ℕ → List Operation → Option ℕ → Option ℕ
unfolding has add count_found
players mid [] o = o
players mid (update mids ∷ ops) o =
    players mid ops (if has mid mids then some (count_found o) else none)
players mid (join rq ∷ ops) o = players mid ops (if mid == rq.mid then add 1 o else o)
players mid (unjoin rq ∷ ops) o = players mid ops (if mid == rq.mid then add (2 ^ 32 - 1) o else o)

-- What a join or an unjoin answers.
pub answer : Option ℕ → ℕ
answer none = no_match
answer (some n) = n

subscript_found_lem :
    (mid j : ℕ) (infos : List (ℕ × ℕ)) (o : Option ℕ)
    → lookup mid infos ≡ o
    → ((subscript_found mid infos o).0 ≡ count_found (lookup mid infos))
      × (count_found (lookup j (subscript_found mid infos o).1) ≡ count_found (lookup j infos))
unfolding subscript_found count_found
subscript_found_lem mid j infos (some n) e = (sym (ap count_found e), refl)
subscript_found_lem mid j infos none e = (
  sym (ap count_found e),
  elim (Bool-cases (j == mid)) [
    | inl b ↦
        ap count_found
          (lookup-assign mid j 0 infos ∙ ap (λ q. if q then some 0 else lookup j infos) b)
        ∙ sym (ap count_found (ap (λ i. lookup i infos) ((==_iff j mid).0 b) ∙ e))
    | inr b ↦
        ap count_found
          (lookup-assign mid j 0 infos ∙ ap (λ q. if q then some 0 else lookup j infos) b)
  ],
)

subscript_lem :
    (mid j : ℕ) (infos : List (ℕ × ℕ))
    → ((subscript mid infos).0 ≡ count_found (lookup mid infos))
      × (count_found (lookup j (subscript mid infos).1) ≡ count_found (lookup j infos))
unfolding subscript
subscript_lem mid j infos = subscript_found_lem mid j infos (lookup mid infos) refl

lookup-carry :
    (j : ℕ) (mids : List ℕ) (infos tmp : List (ℕ × ℕ))
    → lookup j (carry mids infos tmp)
      ≡ (if has j mids then some (count_found (lookup j infos)) else lookup j tmp)
unfolding carry has
lookup-carry j [] infos tmp = refl
lookup-carry j (mid ∷ mids) infos tmp =
    let (n, infos') = subscript mid infos in
    let (value, kept) = subscript_lem mid j infos in
    lookup-carry j mids infos' (assign mid n tmp) ∙ elim (Bool-cases (j == mid)) [
      | inl b ↦ ground (
        arith,
        b,
        kept,
        lookup-assign mid j n tmp,
        value ∙ ap (λ i. count_found (lookup i infos)) (sym ((==_iff j mid).0 b)),
      )
      | inr b ↦ ground (arith, b, kept, lookup-assign mid j n tmp)
    ]

change_found_lem :
    (change mid j : ℕ) (m : MatchManager) (o : Option ℕ)
    → lookup mid m.infos ≡ o
    → lookup j (change_found change mid m o).1.infos
      ≡ (if j == mid then add change (lookup j m.infos) else lookup j m.infos)
unfolding change_found add
change_found_lem change mid j m none e = elim (Bool-cases (j == mid)) [
  | inl b ↦
      let absent : lookup j m.infos ≡ none = ap (λ i. lookup i m.infos) ((==_iff j mid).0 b) ∙ e in
      absent
      ∙ sym (
          ap (λ q. if q then add change (lookup j m.infos) else lookup j m.infos) b
          ∙ ap (add change) absent)
  | inr b ↦ sym (ap (λ q. if q then add change (lookup j m.infos) else lookup j m.infos) b)
]
change_found_lem change mid j m (some n) e = elim (Bool-cases (j == mid)) [
  | inl b ↦
      let found : lookup j m.infos ≡ some n = ap (λ i. lookup i m.infos) ((==_iff j mid).0 b) ∙ e in
      lookup-assign mid j ((n + change) % 2 ^ 32) m.infos
      ∙ ap (λ q. if q then some ((n + change) % 2 ^ 32) else lookup j m.infos) b
      ∙ sym (
          ap (λ q. if q then add change (lookup j m.infos) else lookup j m.infos) b
          ∙ ap (add change) found)
  | inr b ↦
      lookup-assign mid j ((n + change) % 2 ^ 32) m.infos
      ∙ ap (λ q. if q then some ((n + change) % 2 ^ 32) else lookup j m.infos) b
      ∙ sym (ap (λ q. if q then add change (lookup j m.infos) else lookup j m.infos) b)
]

run-players :
    (ops : List Operation) (m : MatchManager) (mid : ℕ)
    → lookup mid (run ops m).infos ≡ players mid ops (lookup mid m.infos)
unfolding run players update_matches join_match unjoin_match
run-players [] m mid = refl
run-players (update mids ∷ ops) m mid =
    run-players ops (update_matches mids m) mid
    ∙ ap (players mid ops) (lookup-carry mid mids m.infos [])
run-players (join rq ∷ ops) m mid =
    run-players ops (join_match rq.uid rq.mid rq.mtype m).1 mid
    ∙ ap (players mid ops) (change_found_lem 1 rq.mid mid m (lookup rq.mid m.infos) refl)
run-players (unjoin rq ∷ ops) m mid =
    run-players ops (unjoin_match rq.uid rq.mid rq.mtype m).1 mid
    ∙ ap (players mid ops) (change_found_lem (2 ^ 32 - 1) rq.mid mid m (lookup rq.mid m.infos) refl)

change_found-answer :
    (change mid : ℕ) (m : MatchManager) (o : Option ℕ)
    → (change_found change mid m o).0 ≡ answer (add change o)
unfolding change_found answer add
change_found-answer change mid m none = refl
change_found-answer change mid m (some n) = refl

-- Whatever sequence of updates, joins and unjoins the server has handled, the players of each match
-- are those of its own operations, modulo 2^32: what happens to other matches does not change them, a
-- match that an update repeats keeps its players, one that it drops is gone, and one that it brings
-- has none. A join, or an unjoin, then answers with one more, or less, and with -1 where the server
-- does not have the match.
pub players_lem :
    (ops : List Operation) (m : MatchManager) (mid uid mtype : ℕ)
    → let o = players mid ops (lookup mid m.infos) in
      (lookup mid (run ops m).infos ≡ o)
      × ((join_match uid mid mtype (run ops m)).0 ≡ answer (add 1 o))
      × ((unjoin_match uid mid mtype (run ops m)).0 ≡ answer (add (2 ^ 32 - 1) o))
unfolding join_match unjoin_match
players_lem ops m mid uid mtype =
    let n = run ops m in
    let e = run-players ops m mid in
    (
      e,
      change_found-answer 1 mid n (lookup mid n.infos) ∙ ap (λ o. answer (add 1 o)) e,
      change_found-answer (2 ^ 32 - 1) mid n (lookup mid n.infos)
          ∙ ap (λ o. answer (add (2 ^ 32 - 1) o)) e,
    )
