-- ===== src/Central/Distribution/Tests.antt =====
-- CSMatchDistribution.cpp at concrete servers.
use asio_utils.Base.{ℕ, ◌≡◌, ◌+◌, refl, List, [], ◌∷◌, some, arith, true, count}
use asio_utils.Central.Distribution.{Service, Pass, distribute}
use asio_utils.Central.Distribution.Keeps.{Ordered, has, held}
use asio_utils.Central.Distribution.Moves.{member}
use asio_utils.Central.Distribution.Conserve.{distribute_conserves}

abbrev two : List Service
two =
    record { key = record { sid = 3; loaded = 0 }; mids = [] }
    ∷ record { key = record { sid = 5; loaded = 1 }; mids = 9 ∷ [] }
    ∷ []

abbrev after : Pass
after = record {
  services =
      record { key = record { sid = 3; loaded = 2 }; mids = 1 ∷ 2 ∷ [] }
      ∷ record { key = record { sid = 5; loaded = 2 }; mids = 9 ∷ 3 ∷ [] }
      ∷ [];
  undist = 4 ∷ [];
  changed = 3 ∷ 5 ∷ [];
}

-- With one match and two services, the match is taken from the service that has it.
lost :
    distribute 1 two []
    ≡ some (record {
      services =
          record { key = record { sid = 3; loaded = 0 }; mids = [] }
          ∷ record { key = record { sid = 5; loaded = 0 }; mids = [] }
          ∷ [];
      undist = 9 ∷ [];
      changed = 5 ∷ [];
    })
unfolding distribute
lost = refl

two-Ordered : Ordered 0 two
two-Ordered = Ordered.cons (omega arith) (Ordered.cons (omega arith) Ordered.nil)

distribute_conserves_example :
    (q : Pass) × (distribute 5 two (1 ∷ 2 ∷ 3 ∷ 4 ∷ []) ≡ some q)
    × Ordered 0 q.services
    × ((i : ℕ) → has i q.services ≡ has i two)
    × ((x : ℕ) → held x q.services + count x q.undist ≡ held x two + count x (1 ∷ 2 ∷ 3 ∷ 4 ∷ []))
    × ((i : ℕ) → member i q.changed ≡ true → has i q.services ≡ true)
distribute_conserves_example = distribute_conserves 5 two (1 ∷ 2 ∷ 3 ∷ 4 ∷ []) two-Ordered
