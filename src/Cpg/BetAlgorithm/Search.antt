-- ===== src/Cpg/BetAlgorithm/Search.antt =====
-- The two searches of BetAlgorithm.cc.
use asio_utils.Base.{
  ℕ, zero, suc, ◌+◌, ◌-◌, ◌≡◌, ◌≢◌, ◌≤◌, ◌<◌, refl, sym, ◌∙◌, ap, subst, ◌⊎◌, inl, inr, false, ◌&&◌,
  List, [], ◌∷◌, some, ltb, leb, ltb→lt, ltb→le, ◌==◌, ==_iff, length, if-cases, Bool-cases, arith,
}
use asio_utils.Cpg.BetAlgorithm.{
  at, middle, search, bsearch_similar_number, scan, get_similar_number,
}

-- Each number of the table is below the next.
unfoldable pub Increasing : List ℕ → Type 0
Increasing [] = Unit
Increasing (x ∷ []) = Unit
Increasing (x ∷ y ∷ arr) = (x < y) × Increasing (y ∷ arr)

at_least_head :
    (x : ℕ) (arr : List ℕ) (i : ℕ) → Increasing (x ∷ arr) → i < length arr → x < at arr i
unfolding Increasing at
at_least_head x [] i o h = absurd (omega (arith, h))
at_least_head x (y ∷ arr) zero (l, o) h = l
at_least_head x (y ∷ arr) (suc i) (l, o) h =
    omega (arith, at_least_head y arr i o (omega (arith, h)), l)

Increasing-tail : (x : ℕ) (arr : List ℕ) → Increasing (x ∷ arr) → Increasing arr
unfolding Increasing
Increasing-tail x [] o = tt
Increasing-tail x (y ∷ arr) (l, o) = o

increases : (arr : List ℕ) (i j : ℕ) → Increasing arr → i < j → j < length arr → at arr i < at arr j
unfolding at
increases [] i j o h l = absurd (omega (arith, l))
increases (x ∷ arr) i zero o h l = absurd (omega (arith, h))
increases (x ∷ arr) zero (suc j) o h l = at_least_head x arr j o (omega (arith, l))
increases (x ∷ arr) (suc i) (suc j) o h l =
    increases arr i j (Increasing-tail x arr o) (omega (arith, h)) (omega (arith, l))

-- The number at the index is at most `val`, or the first, and the next is above `val`, if there is one.
pub record IsSimilar (arr : List ℕ) (val i : ℕ) : Type 0 where
  pub inside : i < length arr
  pub below : (i ≡ 0) ⊎ (at arr i ≤ val)
  pub above : (suc i ≡ length arr) ⊎ (val < at arr (suc i))

increases_or_same :
    (arr : List ℕ) (i j : ℕ) → Increasing arr → i ≤ j → j < length arr → at arr i ≤ at arr j
increases_or_same arr i j o h l = elim (Bool-cases (i == j)) [
  | inl e ↦ subst (λ k. at arr i ≤ at arr k) ((==_iff i j).0 e) (omega arith)
  | inr e ↦ let less : i < j = ground (arith, e, h) in omega (arith, increases arr i j o less l)
]

not_less :
    (arr : List ℕ) (val i j : ℕ)
    → Increasing arr
    → IsSimilar arr val i
    → IsSimilar arr val j
    → j ≤ i
not_less arr val i j o a b = elim (Bool-cases (ltb i j)) [
  | inr e ↦ ltb→le i j e
  | inl e ↦
      let less = ltb→lt i j e in
      let reached = increases_or_same arr (suc i) j o less b.inside in
      omega (arith, less, reached, a.above, b.below, b.inside)
]

similar_once :
    (arr : List ℕ) (val i j : ℕ)
    → Increasing arr
    → IsSimilar arr val i
    → IsSimilar arr val j
    → i ≡ j
similar_once arr val i j o a b =
    omega (arith, not_less arr val i j o a b, not_less arr val j i o b a)

scan-IsSimilar :
    (index x : ℕ) (arr : List ℕ) (val : ℕ)
    → x ≤ val
    → (k : ℕ) × (scan index (x ∷ arr) val ≡ index + k) × IsSimilar (x ∷ arr) val k
unfolding scan at
scan-IsSimilar index x [] val h =
    (0, omega arith, record { inside = omega arith; below = inl refl; above = inl refl })
scan-IsSimilar index x (y ∷ arr) val h = elim (Bool-cases (ltb val y)) [
  | inl e ↦ (
    0,
    ground (arith, e, h),
    record { inside = omega arith; below = inl refl; above = inr (ltb→lt val y e) },
  )
  | inr e ↦
      let le = ltb→le val y e in
      let (k, q, s) = scan-IsSimilar (suc index) y arr val le in
      (
        suc k,
        ground (arith, e, q),
        record {
          inside = omega (arith, s.inside);
          below = elim s.below [
            | inl z ↦ inr (subst (λ i. at (y ∷ arr) i ≤ val) (sym z) le)
            | inr p ↦ inr p
          ];
          above = elim s.above [ inl z ↦ inl (ap suc z) | inr p ↦ inr p ];
        },
      )
]

middle_between :
    (left above : ℕ) → left < above → (left ≤ middle left above) × (middle left above < above)
unfolding middle
middle_between left above h = (omega (arith, h), omega (arith, h))

middle_last :
    (left above n : ℕ)
    → left < above
    → above ≤ n
    → middle left above ≡ n - 1
    → left ≡ middle left above
unfolding middle
middle_last left above n h l e = omega (arith, h, l, e)

-- What holds whenever the loop tests its condition.
record Bracket (arr : List ℕ) (val left above mid : ℕ) : Type 0 where
  order : left ≤ above
  inside : above ≤ length arr
  from_left : (left ≡ 0) ⊎ ((left < length arr) × (at arr left ≤ val))
  from_right : (above ≡ length arr) ⊎ ((above < length arr) × (val < at arr above))
  first : above ≡ 0 → mid ≡ 0

module _ (arr : List ℕ) (val left above mid : ℕ) (o : Increasing arr) (n : 0 < length arr)
    (b : Bracket arr val left above mid) where
  at_last :
      left < above → middle left above ≡ length arr - 1 → IsSimilar arr val (middle left above)
  at_last h l =
      let same = middle_last left above (length arr) h b.inside l in
      record {
        inside = omega (arith, l, n);
        below = elim b.from_left [
          | inl z ↦ inl (sym same ∙ z)
          | inr (_, p) ↦ inr (subst (λ i. at arr i ≤ val) same p)
        ];
        above = inl (omega (arith, l, n));
      }

  at_exit : above ≤ left → IsSimilar arr val mid
  at_exit h =
      let closed : left ≡ above = omega (arith, h, b.order) in
      elim b.from_left [
        | inl z ↦
            let low : above ≡ 0 = sym closed ∙ z in
            let first = b.first low in
            elim b.from_right [
              | inl r ↦ absurd (omega (arith, r, low, n))
              | inr (l, p) ↦ elim (Bool-cases (suc mid == length arr)) [
                | inl e ↦ record {
                  inside = omega (arith, first, n);
                  below = inl first;
                  above = inl ((==_iff (suc mid) (length arr)).0 e);
                }
                | inr e ↦
                    let inside : suc mid < length arr = ground (arith, e, first, n) in
                    let grows =
                      increases arr above (suc mid) o (omega (arith, low, first)) inside in
                    record {
                      inside = omega (arith, inside);
                      below = inl first;
                      above = inr (omega (arith, grows, p));
                    }
              ]
            ]
        | inr (l, p) ↦ elim b.from_right [
          | inl r ↦ absurd (omega (arith, r, l, closed))
          | inr (_, q) ↦ absurd (omega (arith, p, subst (λ i. val < at arr i) (sym closed) q))
        ]
      ]

  to_upper :
      (m : ℕ)
      → m < above
      → m ≢ length arr - 1
      → (leb (at arr m) val && ltb val (at arr (suc m))) ≡ false
      → at arr m < val
      → Bracket arr val (suc m) above m
  to_upper m h l q t = record {
    order = omega (arith, h);
    inside = b.inside;
    from_left = inr (omega (arith, h, l, b.inside), ground (arith, q, t));
    from_right = b.from_right;
    first = λ z. absurd (omega (arith, z, h));
  }

  to_lower :
      (m : ℕ)
      → left ≤ m
      → m < above
      → m ≢ length arr - 1
      → (leb (at arr m) val && ltb val (at arr (suc m))) ≡ false
      → val ≤ at arr m
      → Bracket arr val left m m
  to_lower m k h l q t =
      let inside : suc m < length arr = omega (arith, h, l, b.inside) in
      let grows = increases arr m (suc m) o (omega arith) inside in
      record {
        order = k;
        inside = omega (arith, inside);
        from_left = b.from_left;
        from_right = inr (omega (arith, inside), ground (arith, q, t, grows));
        first = λ z. z;
      }

search-IsSimilar :
    (fuel : ℕ) (arr : List ℕ) (val left above mid : ℕ)
    → Increasing arr
    → 0 < length arr
    → above < left + fuel
    → Bracket arr val left above mid
    → IsSimilar arr val (search fuel arr val left above mid)
unfolding search
search-IsSimilar zero arr val left above mid o n f b = absurd (omega (arith, f, b.order))
search-IsSimilar (suc fuel) arr val left above mid o n f b =
    let m = middle left above in
    if-cases (IsSimilar arr val) (ltb left above)
      (λ e.
        let (low, high) = middle_between left above (ltb→lt left above e) in
        if-cases (IsSimilar arr val) (m == length arr - 1)
          (λ l.
            at_last arr val left above mid o n b (ltb→lt left above e)
              ((==_iff m (length arr - 1)).0 l))
          (λ l.
            let inner : m ≢ length arr - 1 = λ z. ground (arith, z, l) in
            if-cases (IsSimilar arr val) (leb (at arr m) val && ltb val (at arr (suc m)))
              (λ q. record {
                inside = omega (arith, high, b.inside);
                below = inr (ground (arith, q));
                above = inr (ground (arith, q));
              })
              (λ q.
                if-cases (IsSimilar arr val) (ltb (at arr m) val)
                  (λ t. search-IsSimilar fuel arr val (suc m) above m o n (omega (arith, f, low)) (
                    to_upper arr val left above mid o n b m high inner q (ltb→lt (at arr m) val t)))
                  (λ t. search-IsSimilar fuel arr val left m m o n (omega (arith, f, high)) (
                    to_lower arr val left above mid o n b m low high inner q
                      (ltb→le (at arr m) val t))))))
      (λ e. at_exit arr val left above mid o n b (ltb→le left above e))

at_front :
    (x : ℕ) (arr : List ℕ) (val : ℕ) → Increasing (x ∷ arr) → val ≤ x → IsSimilar (x ∷ arr) val 0
unfolding Increasing at
at_front x [] val o h = record { inside = omega arith; below = inl refl; above = inl refl }
at_front x (y ∷ arr) val (l, o) h = record {
  inside = omega arith;
  below = inl refl;
  above = inr (omega (arith, l, h));
}

-- On a table that is not empty, and increases, the binary search finds the index that the linear search
-- finds.
pub bsearch_similar_number-get_similar_number :
    (arr : List ℕ) (val : ℕ)
    → Increasing arr
    → 0 < length arr
    → some (bsearch_similar_number arr val) ≡ get_similar_number arr val
unfolding bsearch_similar_number get_similar_number
bsearch_similar_number-get_similar_number [] val o n = absurd (omega (arith, n))
bsearch_similar_number-get_similar_number (x ∷ arr) val o n =
    let all = x ∷ arr in
    let found =
      search-IsSimilar (suc (length all)) all val 0 (length all) 0 o n (omega arith) (record {
        order = omega arith;
        inside = omega arith;
        from_left = inl refl;
        from_right = inl refl;
        first = λ z. refl;
      }) in
    let i = bsearch_similar_number all val in
    if-cases (λ r. some i ≡ r) (leb val x)
      (λ e. ap some (similar_once all val i 0 o found (at_front x arr val o (ground (arith, e)))))
      (λ e.
        let (k, q, s) = scan-IsSimilar 0 x arr val (ground (arith, e)) in
        ap some (similar_once all val i k o found s ∙ sym (q ∙ omega arith)))
