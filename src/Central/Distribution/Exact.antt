-- ===== src/Central/Distribution/Exact.antt =====
-- The loads that CSMatchLoadedEvaluation.cpp writes, through a whole distribution.
use asio_utils.Base.{if-both, if-both, ℕ, ◌≡◌, true, List, [], ◌∷◌, Option, some, length, ◌⊎◌}
use asio_utils.Central.Distribution.{Service, Pass}
use asio_utils.Central.Distribution.Keeps.{Ordered}
use asio_utils.Central.Distribution.Moves.{member}

-- Every load is the number of matches, but for the services listed.
pub data Counted : List ℕ → List Service → Type 0 where
  nil : {is : List ℕ} → Counted is []
  cons :
      {is : List ℕ} {e : Service} {m : List Service}
      → (member e.key.sid is ≡ true) ⊎ (e.key.loaded ≡ length e.mids)
      → Counted is m
      → Counted is (e ∷ m)

abbrev Fresh : Pass → Type 0
Fresh p = Counted p.changed p.services

-- What holds of the pass that is returned, if one is.
Ends : (Pass → Type 0) → Option Pass → Type 0
Ends P o = (q : Pass) → o ≡ some q → P q

-- In order, and every load the number of matches.
pub Fine : Pass → Type 0
Fine p = Ordered 0 p.services × Counted [] p.services
