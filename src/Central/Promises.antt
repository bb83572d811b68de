-- ===== src/Central/Promises.antt =====
-- CentralServer/CentralServer/Class/PromiseFutureQueue.cpp: requests that wait for an answer, by the id
-- that goes with the question. Every operation holds the lock. An id is a number; data is a number, 0
-- where there is none; a promise is the value that it has been given. `none` is the exception of a
-- promise that is given a second value.
pub mod Answered
mod Tests
use asio_utils.Base.{
  ℕ, suc, Bool, true, false, List, [], ◌∷◌, Option, none, some, lookup, assign, discard,
}

pub record PromiseProfile : Type 0 where
  pub promise_id : ℕ
  pub promise : Option ℕ
  pub any_data : ℕ

pub record PromiseFutureQueue : Type 0 where
  pub promise_map : List (ℕ × PromiseProfile)
  pub next_id : ℕ

-- What `promiseMap_[pid]` makes.
abbrev pub empty_profile : PromiseProfile
empty_profile = record { promise_id = 0; promise = none; any_data = 0 }

abbrev pub init : PromiseFutureQueue
init = record { promise_map = []; next_id = 100 }

subscript_found : Option PromiseProfile → PromiseProfile
subscript_found none = empty_profile
subscript_found (some p) = p

-- `promiseMap_[pid]`; where there is nothing, `assign` makes it.
unfoldable pub subscript : ℕ → PromiseFutureQueue → PromiseProfile
unfolding subscript_found lookup
subscript pid q = subscript_found (lookup pid q.promise_map)

-- The id of the promise.
unfoldable pub next_promise : PromiseFutureQueue → ℕ × PromiseFutureQueue
unfolding subscript assign
next_promise q =
    let pid = q.next_id in
    (
      pid,
      record {
        promise_map = assign pid (record (subscript pid q) { promise_id = pid }) q.promise_map;
        next_id = suc pid;
      },
    )

unfoldable pub future_data : ℕ → PromiseFutureQueue → ℕ × PromiseFutureQueue
unfolding subscript assign
future_data pid q =
    let p = subscript pid q in (p.any_data, record q { promise_map = assign pid p q.promise_map })

-- The data is set before the promise throws.
set_value :
    ℕ → ℕ → ℕ → PromiseFutureQueue → PromiseProfile → Option ℕ → Option Bool × PromiseFutureQueue
unfolding assign
set_value x value pid q p none = (
  some true,
  record q {
    promise_map = assign pid (record p { any_data = x; promise = some value }) q.promise_map;
  },
)
set_value x value pid q p (some old) =
    (none, record q { promise_map = assign pid (record p { any_data = x }) q.promise_map })

set_found :
    ℕ → ℕ → ℕ → PromiseFutureQueue → Option PromiseProfile → Option Bool × PromiseFutureQueue
unfolding set_value
set_found x value pid q none = (some false, q)
set_found x value pid q (some p) = set_value x value pid q p p.promise

unfoldable pub set_data : ℕ → ℕ → ℕ → PromiseFutureQueue → Option Bool × PromiseFutureQueue
unfolding set_found lookup
set_data x value pid q = set_found x value pid q (lookup pid q.promise_map)

unfoldable pub remove_promise : ℕ → PromiseFutureQueue → PromiseFutureQueue
unfolding discard
remove_promise pid q = record q { promise_map = discard pid q.promise_map }
