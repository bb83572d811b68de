-- ===== src/Gate/Table.antt =====
-- GSKernel.cpp: the map that is made of a notification, and the table of the match servers.
use asio_utils.Base.{
  ℕ, ◌≡◌, ◌≤◌, refl, sym, ◌∙◌, ap, Bool, true, false, List, [], ◌∷◌, Option, none, some, ltb, ◌==◌,
  if◌then◌else◌, lookup, assign, lookup-assign, if-cases, ltb→lt, ltb→le, arith,
}
use asio_utils.Gate.{key_of, set_mids, match_distr, assign_all, route_service}

-- The matches that a notification gives a service: its last entry for the service counts.
pub or_else : Option (List ℕ) → Option (List ℕ) → Option (List ℕ)
or_else none o = o
or_else (some x) o = some x

pub given_to : ℕ → List (ℕ × List ℕ) → Option (List ℕ)
unfolding or_else
given_to sid [] = none
given_to sid ((s, mids) ∷ notify) =
    or_else (given_to sid notify) (if sid == s then some mids else none)

unfoldable pub has : ℕ → List ℕ → Bool
has mid [] = false
has mid (x ∷ xs) = let rest = has mid xs in if mid == x then true else rest

pub lookup-set_mids :
    (k j : ℕ) (a : List ℕ) (m : List (ℕ × List ℕ))
    → lookup j (set_mids k a m) ≡ (if j == k then some a else lookup j m)
unfolding lookup set_mids
lookup-set_mids k j a [] = ground arith
lookup-set_mids k j a ((i, b) ∷ m) = ground (arith, lookup-set_mids k j a m)

pub or_else_assoc : (x y z : Option (List ℕ)) → or_else (or_else x y) z ≡ or_else x (or_else y z)
unfolding or_else
or_else_assoc none y z = refl
or_else_assoc (some a) y z = refl

pub or_else-if :
    (b : Bool) (a : List ℕ) (o : Option (List ℕ))
    → or_else (if b then some a else none) o ≡ (if b then some a else o)
unfolding or_else
or_else-if true a o = refl
or_else-if false a o = refl

pub lookup-match_distr :
    (sid : ℕ) (notify m : List (ℕ × List ℕ))
    → lookup sid (match_distr notify m) ≡ or_else (given_to sid notify) (lookup sid m)
unfolding match_distr given_to
lookup-match_distr sid [] m = refl
lookup-match_distr sid ((s, mids) ∷ notify) m =
    lookup-match_distr sid notify (set_mids s mids m)
    ∙ ap (or_else (given_to sid notify))
        (lookup-set_mids s sid mids m ∙ sym (or_else-if (sid == s) mids (lookup sid m)))
    ∙ sym
        (or_else_assoc (given_to sid notify) (if sid == s then some mids else none) (lookup sid m))

pub or_else-none : (o : Option (List ℕ)) → or_else o none ≡ o
unfolding or_else
or_else-none none = refl
or_else-none (some x) = refl

-- The keys are in order, and none comes twice.
unfoldable pub Above : ℕ → List (ℕ × List ℕ) → Type 0
Above k [] = Unit
Above k ((j, a) ∷ m) = (key_of k ≤ key_of j) × Above k m

unfoldable pub InOrder : List (ℕ × List ℕ) → Type 0
InOrder [] = Unit
InOrder ((k, a) ∷ m) = (lookup k m ≡ none) × Above k m × InOrder m

pub Above-less : (k j : ℕ) (m : List (ℕ × List ℕ)) → key_of k ≤ key_of j → Above j m → Above k m
unfolding Above
Above-less k j [] h a = tt
Above-less k j ((i, x) ∷ m) h (le, a) = (omega (arith, h, le), Above-less k j m h a)

pub absent :
    (k j : ℕ) (m : List (ℕ × List ℕ))
    → ltb (key_of k) (key_of j) ≡ true
    → Above j m
    → lookup k m ≡ none
unfolding Above lookup
absent k j [] h a = refl
absent k j ((i, x) ∷ m) h (le, a) = ground (arith, absent k j m h a, h, le)

pub set_mids-Above :
    (i k : ℕ) (a : List ℕ) (m : List (ℕ × List ℕ))
    → key_of i ≤ key_of k
    → Above i m
    → Above i (set_mids k a m)
unfolding Above set_mids
set_mids-Above i k a [] h o = (h, tt)
set_mids-Above i k a ((j, b) ∷ m) h (le, o) =
    if-cases (Above i) (k == j) (λ e. (le, o))
      (λ e.
        if-cases (Above i) (ltb (key_of k) (key_of j)) (λ l. (h, (le, o)))
          (λ l. (le, set_mids-Above i k a m h o)))

pub set_mids-InOrder :
    (k : ℕ) (a : List ℕ) (m : List (ℕ × List ℕ)) → InOrder m → InOrder (set_mids k a m)
unfolding InOrder set_mids lookup Above
set_mids-InOrder k a [] o = (refl, tt, tt)
set_mids-InOrder k a ((j, b) ∷ m) (fresh, above, o) =
    if-cases InOrder (k == j) (λ e. (fresh, above, o))
      (λ e.
        if-cases InOrder (ltb (key_of k) (key_of j))
          (λ l. (
            ground (arith, absent k j m l above, e),
            (
              omega (arith, ltb→lt (key_of k) (key_of j) l),
              Above-less k j m (omega (arith, ltb→lt (key_of k) (key_of j) l)) above,
            ),
            (fresh, above, o),
          ))
          (λ l. (
            lookup-set_mids k j a m ∙ ground (arith, e, fresh),
            set_mids-Above j k a m (ltb→le (key_of k) (key_of j) l) above,
            set_mids-InOrder k a m o,
          )))

pub match_distr-InOrder :
    (notify m : List (ℕ × List ℕ)) → InOrder m → InOrder (match_distr notify m)
unfolding match_distr
match_distr-InOrder [] m o = o
match_distr-InOrder ((sid, mids) ∷ notify) m o =
    match_distr-InOrder notify (set_mids sid mids m) (set_mids-InOrder sid mids m o)

pub lookup-assign_all :
    (s mid : ℕ) (mids : List ℕ) (routes : List (ℕ × ℕ))
    → lookup mid (assign_all s mids routes) ≡ (if has mid mids then some s else lookup mid routes)
unfolding assign_all has
lookup-assign_all s mid [] routes = refl
lookup-assign_all s mid (x ∷ xs) routes =
    lookup-assign_all s mid xs (assign x s routes)
    ∙ ap (λ o. if has mid xs then some s else o) (lookup-assign x mid s routes)
    ∙ ground arith

pub lookup-route_service :
    (s mid : ℕ) (mids : List ℕ) (routes : List (ℕ × ℕ))
    → lookup mid (route_service s mids routes)
      ≡ (if s == 0 then lookup mid routes else if has mid mids then some s else lookup mid routes)
unfolding route_service
lookup-route_service s mid mids routes = ground (arith, lookup-assign_all s mid mids routes)
