-- ===== src/Central/Check/Answer.antt =====
-- The answer of `checkServiceDistMap` to a match server, and the matches after it.
use asio_utils.Base.{
  ℕ, ◌+◌, ◌≡◌, ◌≢◌, Bool, true, ◌&&◌, List, [], ◌∷◌, Option, none, some, ◌==◌, leb, if◌then◌else◌,
  count,
}
use asio_utils.Central.Distribution.Keeps.{held}
use asio_utils.Central.Manager.{Manager, get_dist_match}
use asio_utils.Central.Check.{
  CheckError, error_no, error_match_server_more, error_match_server_less, error_no_match,
  error_reconnect, is_empty,
}

-- Every one of the first list's matches is in the second, as often.
all_within : List ℕ → List ℕ → List ℕ → Bool
all_within [] xs ys = true
all_within (z ∷ zs) xs ys = leb (count z xs) (count z ys) && all_within zs xs ys

pub within : List ℕ → List ℕ → Bool
unfolding all_within
within xs ys = all_within xs xs ys

-- The answer by what the manager has for the service, if it has it, and what the service has.
unfoldable pub answer : Option (List ℕ) → List ℕ → CheckError
unfolding is_empty
answer none mids = if is_empty mids then error_no_match else error_reconnect
answer (some dist) mids =
    if within mids dist
    then (if within dist mids then error_no else error_match_server_less)
    else error_match_server_more

-- The matches that a service brings along: those of one that the manager does not know.
unfoldable pub adopted : Option (List ℕ) → List ℕ → List ℕ
adopted none mids = mids
adopted (some dist) mids = []

-- The matches that a service is left with: those that it was given, or else those that it brings.
unfoldable pub left_with : Option (List ℕ) → List ℕ → List ℕ
left_with none mids = mids
left_with (some dist) mids = dist

-- What the answer `r` to the service `sid` leaves, where the manager had `found` for it.
pub record IsAnswered (m : Manager) (sid : ℕ) (mids : List ℕ) (found : Option (List ℕ))
    (r : CheckError × List ℕ × Manager) : Type 0 where
  pub result : r.0 ≡ answer found mids
  pub same_mids : (x : ℕ) → count x r.1 ≡ count x mids
  pub own : (x : ℕ) → count x (get_dist_match r.2.services sid) ≡ count x (left_with found mids)
  pub others :
      (other : ℕ)
      → other ≢ sid
      → get_dist_match r.2.services other ≡ get_dist_match m.services other
  pub served : (x : ℕ) → held x r.2.services ≡ held x m.services + count x (adopted found mids)
  pub undist :
      (x : ℕ)
      → count x r.2.undist ≡ (if count x (adopted found mids) == 0 then count x m.undist else 0)
