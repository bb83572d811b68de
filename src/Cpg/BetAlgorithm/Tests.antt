-- ===== src/Cpg/BetAlgorithm/Tests.antt =====
-- The searches at concrete tables.
use asio_utils.Base.{ℕ, ◌≡◌, refl, List, [], ◌∷◌, some, arith}
use asio_utils.Cpg.BetAlgorithm.{
  at, middle, search, bsearch_similar_number, scan, get_similar_number,
}
use asio_utils.Cpg.BetAlgorithm.Search.{Increasing, bsearch_similar_number-get_similar_number}

abbrev blinds : List ℕ
blinds = 10 ∷ 25 ∷ 50 ∷ 100 ∷ []

blinds-Increasing : Increasing blinds
unfolding Increasing
blinds-Increasing = (omega arith, (omega arith, (omega arith, tt)))

bsearch_similar_number-get_similar_number_example :
    some (bsearch_similar_number blinds 60) ≡ get_similar_number blinds 60
bsearch_similar_number-get_similar_number_example =
    bsearch_similar_number-get_similar_number blinds 60 blinds-Increasing (omega arith)

-- Where a number comes twice, the binary search may miss it.
missed : bsearch_similar_number (1 ∷ 5 ∷ 5 ∷ 9 ∷ []) 5 ≡ 0
unfolding bsearch_similar_number search middle at
missed = refl

not_missed : get_similar_number (1 ∷ 5 ∷ 5 ∷ 9 ∷ []) 5 ≡ some 2
unfolding get_similar_number scan
not_missed = refl
