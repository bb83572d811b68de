-- ===== src/Base/Runs.antt =====
-- Sequences of operations that can fail, and of those that a state allows.
use mathlib.Core.Path.{◌≡◌, refl, ap, subst, ◌∙◌}
use mathlib.Core.List.{List, [], ◌∷◌}
use mathlib.Core.Option.{Option, none, some}
use asio_utils.Base.Tests.{◌>>=◌}

module _ {Op State : Type 0} (step : Op → State → Option State) where
  unfoldable pub run_all : List Op → State → Option State
  run_all [] s = some s
  run_all (op ∷ ops) s = step op s >>= run_all ops

  module _ (Allowed : Op → State → Type 0) where
    unfoldable pub After : (State → Type 0) → Option State → Type 0
    After P none = Unit
    After P (some s) = P s

    unfoldable pub AllAllowed : List Op → State → Type 0
    unfolding After
    AllAllowed [] s = Unit
    AllAllowed (op ∷ ops) s = Allowed op s × After (AllAllowed ops) (step op s)

    -- What every allowed step succeeds with, and keeps.
    pub run_all_lem :
        (P : State → Type 0)
        → ((op : Op) (s : State) → P s → Allowed op s → (s' : State) × (step op s ≡ some s') × P s')
        → (ops : List Op) (s : State) → P s
        → AllAllowed ops s
        → (s' : State) × (run_all ops s ≡ some s') × P s'
    unfolding run_all AllAllowed After
    run_all_lem P keep [] s p a = (s, refl, p)
    run_all_lem P keep (op ∷ ops) s p (a, rest) =
        let (s1, e, p1) = keep op s p a in
        let (s2, e2, p2) = run_all_lem P keep ops s1 p1 (subst (After (AllAllowed ops)) e rest) in
        (s2, ap (λ o. o >>= run_all ops) e ∙ e2, p2)
