-- ===== src/Central/Promises/Tests.antt =====
-- Two requests, the second of which is answered first.
use asio_utils.Base.{◌≡◌, refl, [], ◌∷◌, List, true, some, lookup, arith}
use asio_utils.Central.Promises.{init, next_promise, future_data, set_data}
use asio_utils.Central.Promises.Answered.{
  Operation, next, future, removed, set, run, AllOther, IsAnswered, next_promise-IsAnswered,
}

abbrev meanwhile : List Operation
meanwhile = next ∷ set 5 0 101 ∷ future 101 ∷ removed 101 ∷ []

next_promise-IsAnswered_example :
    IsAnswered 9 1 100 (set_data 9 1 100 (run meanwhile (next_promise init).1))
unfolding lookup AllOther next_promise
next_promise-IsAnswered_example =
    next_promise-IsAnswered init meanwhile 9 1 refl
      (tt, (λ e. omega (arith, e), (λ e. omega (arith, e), (λ e. omega (arith, e), tt))))

-- Asking for the data of a promise that is not there makes one, which an answer then fills.
made_by_asking : (set_data 9 1 7 (future_data 7 init).1).0 ≡ some true
unfolding set_data future_data lookup
made_by_asking = refl
