-- ===== src/Net/IndexPool/Removal.antt =====
-- ObjectIndexPool.hpp: `removeObject` of an index in use.
use asio_utils.Base.{
  ℕ, suc, ◌+◌, ◌-◌, ◌%◌, ◌^◌, ◌≤◌, ◌<◌, ◌≡◌, ◌≢◌, refl, sym, ap, ◌∙◌, subst, inl, inr, [], ◌∷◌,
  ◌++◌, some, arith, leb, ◌==◌, ==_iff, Bool-cases, length, length-set, set, count, count-append,
}
use asio_utils.Net.IndexPool.{IndexPool, without, slot, remove_object, get_object, get_size}
use asio_utils.Net.IndexPool.Lists.{
  slot-set_ne, slot-set_zero, slot-set, In-without, without-In, In-count, In-length, count-without,
  length-without,
}
use asio_utils.Net.IndexPool.Slots.{IsValid, get_object_same, get_object_at}

module _ (max_num : ℕ) where
  below : {i n : ℕ} → ¬ (n ≤ i) → i < n
  below {i} {n} h = elim (Bool-cases (leb n i)) [
    | inl e ↦ absurd (h (ground (arith, e)))
    | inr e ↦ ground (arith, e)
  ]

  removed : IndexPool → ℕ → IndexPool
  removed p i = record p {
    size = (p.size + 2 ^ 32 - 1) % 2 ^ 32;
    objects = without (slot p.object_array i) p.objects;
    object_array = set p.object_array i 0;
    invalid_indexs = p.invalid_indexs ++ i ∷ [];
  }

  remove_object_lem :
      (p : IndexPool) (i : ℕ) → i ≤ max_num → remove_object max_num p i ≡ removed p i
  unfolding remove_object removed
  remove_object_lem p i h = ground arith

  zeroed :
      {p : IndexPool}
      → IsValid max_num p
      → (i j : ℕ) → slot p.object_array j ≡ 0
      → slot (set p.object_array i 0) j ≡ 0
  zeroed {p} v i j e = elim (Bool-cases (i == j)) [
    | inl same ↦
        subst (λ k. slot (set p.object_array i 0) k ≡ 0) ((==_iff i j).0 same)
          (slot-set_zero p.object_array i)
    | inr other ↦ slot-set_ne p.object_array i j 0 (λ q. cc (other, (==_iff i j).1 q)) ∙ e
  ]

  -- An index that still holds an object is another one, and held it before.
  kept :
      {p : IndexPool}
      → IsValid max_num p
      → (i j a : ℕ) → a ≢ 0
      → i ≤ max_num
      → slot (set p.object_array i 0) j ≡ a
      → (i ≢ j) × (slot p.object_array j ≡ a)
  kept {p} v i j a nz h e =
      let read = slot-set p.object_array i j 0 (omega (arith, v.array_length)) in
      elim (Bool-cases (i == j)) [
        | inl same ↦ absurd (nz (rw same at (sym e ∙ read)))
        | inr other ↦ (λ q. cc (other, (==_iff i j).1 q), sym (rw other at (sym e ∙ read)))
      ]

  removed-IsValid :
      {p : IndexPool} (i : ℕ)
      → IsValid max_num p
      → max_num < 2 ^ 32 - 1
      → i ≤ max_num
      → slot p.object_array i ≢ 0
      → IsValid max_num (removed p i)
  unfolding removed count
  removed-IsValid {p} i v small h here =
      let inside : i < length p.object_array = omega (arith, v.array_length) in
      let used : i < p.max_index = below (λ a. here (v.free i a)) in
      let listed = In-count (slot p.object_array i) p.objects (v.held i _ here refl) in
      let fewer : suc (length (without (slot p.object_array i) p.objects)) ≡ length p.objects =
        length-without (slot p.object_array i) p.objects
          (omega (arith, v.single (slot p.object_array i), listed)) in
      let gone = slot p.object_array i in
      let elsewhere = λ (j : ℕ) (ne : i ≢ j). slot-set_ne p.object_array i j 0 ne in
      record {
        array_length = length-set p.object_array i 0 ∙ v.array_length;
        bound = v.bound;
        free = λ j k. zeroed v i j (v.free j k);
        listed = λ a nz k.
            let (old, ne) = In-without gone a p.objects k in
            let (j, e) = v.listed a nz old in
            (j, elsewhere j (λ q. ne (sym e ∙ ap (slot p.object_array) (sym q))) ∙ e);
        held = λ j a nz e.
            let (ne, e') = kept v i j a nz h e in
            without-In gone a p.objects (v.held j a nz e')
              (λ q. ne (v.once i j (λ z. nz (q ∙ z)) (sym q ∙ sym e')));
        once = λ j k nz e.
            let (nej, ej) = kept v i j (slot (set p.object_array i 0) j) nz h refl in
            let (nek, ek) = kept v i k (slot (set p.object_array i 0) k) (λ z. nz (e ∙ z)) h refl in
            v.once j k (λ z. nz (sym ej ∙ z)) (ej ∙ e ∙ sym ek);
        no_null = λ k. v.no_null (In-without gone 0 p.objects k).0;
        single = λ a. omega (arith, count-without a gone p.objects, v.single a);
        counted = omega (arith, v.counted, v.few, v.bound, fewer);
        few = omega (arith, v.few, fewer);
        vacant = λ j. ground (
          arith,
          v.vacant j,
          count-append j p.invalid_indexs (i ∷ []),
          slot-set p.object_array i j 0 inside,
          here,
          used,
        );
      }

  -- In a consistent pool, where `MAX_NUM` is less than 2 ^ 32 - 1, `removeObject` of an index that holds
  -- an object empties it and leaves every other; the pool stays consistent, has one object less, and
  -- has the index behind the free ones.
  pub remove_object-IsValid :
      (p : IndexPool) (i : ℕ)
      → IsValid max_num p
      → max_num < 2 ^ 32 - 1
      → i ≤ max_num
      → slot p.object_array i ≢ 0
      → let q = remove_object max_num p i in
        IsValid max_num q
        × (get_object max_num q i ≡ some 0)
        × ((j : ℕ) → j ≢ i → get_object max_num q j ≡ get_object max_num p j)
        × (get_size q + 1 ≡ get_size p)
        × (q.invalid_indexs ≡ p.invalid_indexs ++ i ∷ [])
  unfolding removed get_size
  remove_object-IsValid p i v small h here = rw (remove_object_lem p i h) (
    removed-IsValid i v small h here,
    get_object_at max_num (removed p i) i 0 h (slot-set_zero p.object_array i),
    λ j other.
        get_object_same max_num p (removed p i) j
          (slot-set_ne p.object_array i j 0 (λ e. other (sym e))),
    omega (arith, v.counted, v.few, v.bound, In-length _ p.objects (v.held i _ here refl)),
    refl,
  )

  -- The index is empty afterwards, whatever it held.
  pub remove_object_empties :
      (p : IndexPool) (i : ℕ)
      → i ≤ max_num
      → get_object max_num (remove_object max_num p i) i ≡ some 0
  unfolding removed
  remove_object_empties p i h =
      rw (remove_object_lem p i h)
        (get_object_at max_num (removed p i) i 0 h (slot-set_zero p.object_array i))
