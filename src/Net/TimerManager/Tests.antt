-- ===== src/Net/TimerManager/Tests.antt =====
-- A timer that is made for three calls, and one for none.
use asio_utils.Base.{◌≡◌, refl, false, [], ◌∷◌, min, max}
use asio_utils.Net.TimerManager.{create_timer, complete_all}
use asio_utils.Net.TimerManager.Counts.{successes, create_timer_lem}

three_calls :
    (complete_all (false ∷ false ∷ false ∷ false ∷ []) (create_timer 5 2 3)).waits ≡ 5 ∷ 2 ∷ 2 ∷ []
unfolding complete_all create_timer
three_calls = refl

create_timer_lem_example :
    (complete_all (false ∷ false ∷ []) (create_timer 5 2 0)).called
    ≡ min (successes (false ∷ false ∷ [])) (max 1 0)
create_timer_lem_example = create_timer_lem 5 2 0 (false ∷ false ∷ [])
