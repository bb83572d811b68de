-- ===== src/MatchServer/Central.antt =====
-- A match server that comes back asks the central server about its matches, and takes its answer.
use asio_utils.Base.{
  ℕ, ◌+◌, ◌≡◌, ◌≢◌, Bool, false, not, ◌&&◌, ◌||◌, List, [], ◌∷◌, Option, none, some, ◌==◌,
  if◌then◌else◌, count,
}
use asio_utils.Central.Distribution.Keeps.{held}
use asio_utils.Central.Manager.{get_dist_match}
use asio_utils.Central.Check.{CheckError}
use asio_utils.Central.Check.Answer.{within, adopted, left_with}
use asio_utils.Central.Kernel
use asio_utils.Central.Kernel.{Kernel, code_of, extra_mids, check_match_distribute_rq}
use asio_utils.MatchServer.{MatchServer, check_match_distribute_rs, central_msg}

-- The fields that the server reads from a message.
answer_of : Kernel.Message → Option (ℕ × List ℕ)
answer_of (Kernel.check_match_distribute_rs lid type result mids) = some (result, mids)
answer_of message = none

notice_of : Kernel.Message → Option (List ℕ)
notice_of (Kernel.match_distribute sid mids) = some mids
notice_of message = none

-- The server handles what the central server sends.
unfoldable pub hear : List Kernel.Sent → MatchServer → MatchServer
unfolding answer_of notice_of central_msg
hear [] s = s
hear (x ∷ xs) s = hear xs (central_msg x.type (answer_of x.message) (notice_of x.message) s)

-- The question of the server, on the session `p`, and the answer.
unfoldable pub exchange : ℕ → ℕ → Kernel → MatchServer → Kernel × MatchServer
unfolding hear check_match_distribute_rq
exchange now p k s =
    let k' = check_match_distribute_rq now p (some s.manager.matches) (record k { sent = [] }) in
    (k', hear k'.sent s)

-- The server has only matches that it was given, but not all of them.
unfoldable pub lacks : Option (List ℕ) → List ℕ → Bool
lacks none mids = false
lacks (some dist) mids = within mids dist && not (within dist mids)

-- The matches after an answer.
taken : CheckError → List ℕ → List ℕ → List ℕ
unfolding code_of extra_mids
taken e back mids = if code_of e == 1 || code_of e == 2 then extra_mids e back else mids

-- What is left after the exchange `r` with the server `sid`, where the central server had `found` for
-- it.
pub record IsReconciled (k : Kernel) (sid : ℕ) (s : MatchServer) (found : Option (List ℕ))
    (r : Kernel × MatchServer) : Type 0 where
  pub own :
      (x : ℕ)
      → count x (get_dist_match r.0.manager.services sid)
        ≡ count x (left_with found s.manager.matches)
  pub others :
      (other : ℕ)
      → other ≢ sid
      → get_dist_match r.0.manager.services other ≡ get_dist_match k.manager.services other
  pub served :
      (x : ℕ)
      → held x r.0.manager.services
        ≡ held x k.manager.services + count x (adopted found s.manager.matches)
  pub left :
      (x : ℕ)
      → count x r.1.manager.matches
        ≡ (if lacks found s.manager.matches then 0 else count x s.manager.matches)
