-- ===== src/Net/IndexPool/Slots.antt =====
-- ObjectIndexPool.hpp while fresh indexes last: the pool is a map from indexes to objects.
use asio_utils.Base.{
  ℕ, suc, ◌+◌, ◌-◌, ◌%◌, ◌^◌, ◌≤◌, ◌<◌, ◌≡◌, ◌≢◌, refl, sym, ap, ◌∙◌, ◌⊎◌, inl, inr, [], ◌∷◌, ◌++◌,
  true, false, none, some, arith, leb, le→leb, ◌==◌, ==_iff, if◌then◌else◌, Bool-cases, ◌&&◌, ltb,
  length, length-set, length-replicate, length-append, set, count, count-append,
}
use asio_utils.Net.IndexPool.{IndexPool, slot, init, add_object, get_object, each}
use asio_utils.Net.IndexPool.Lists.{
  In, slot-set_self, slot-set_ne, slot-set, slot-replicate, In-append, In-append_left,
  In-append_right, count-absent,
}

module _ (max_num : ℕ) where
  -- The array holds the listed objects, each at one index below `max_index` and once in the list, and
  -- nothing else. `size` is their number, and the free indexes are those below `max_index` that hold
  -- no object, each once, and `max_num`, which the constructor puts there.
  pub record IsValid (p : IndexPool) : Type 0 where
    pub array_length : length p.object_array ≡ suc max_num
    pub bound : p.max_index ≤ suc max_num
    pub free : (i : ℕ) → p.max_index ≤ i → slot p.object_array i ≡ 0
    pub listed : (v : ℕ) → v ≢ 0 → In v p.objects → (i : ℕ) × (slot p.object_array i ≡ v)
    pub held : (i v : ℕ) → v ≢ 0 → slot p.object_array i ≡ v → In v p.objects
    pub once :
        (i j : ℕ)
        → slot p.object_array i ≢ 0
        → slot p.object_array i ≡ slot p.object_array j
        → i ≡ j
    pub no_null : ¬ (In 0 p.objects)
    pub single : (v : ℕ) → count v p.objects ≤ 1
    pub counted : p.size ≡ length p.objects
    pub few : length p.objects ≤ p.max_index
    pub vacant :
        (i : ℕ)
        → count i p.invalid_indexs
          ≡ (if i == max_num then 1 else 0)
            + (if ltb i p.max_index && slot p.object_array i == 0 then 1 else 0)

  pub init-IsValid : IsValid (init max_num)
  unfolding init count
  init-IsValid = record {
    array_length = length-replicate {A = ℕ} (suc max_num) 0;
    bound = omega arith;
    free = λ i _. slot-replicate (suc max_num) i;
    listed = λ v _ h. absurd h;
    held = λ i v ne e. absurd (ne (sym e ∙ slot-replicate (suc max_num) i));
    once = λ i j ne _. absurd (ne (slot-replicate (suc max_num) i));
    no_null = λ h. h;
    single = λ v. omega arith;
    counted = refl;
    few = omega arith;
    vacant = λ i. ground arith;
  }

  pub added : IndexPool → ℕ → IndexPool
  added p object = record p {
    max_index = (p.max_index + 1) % 2 ^ 32;
    size = (p.size + 1) % 2 ^ 32;
    object_array = set p.object_array p.max_index object;
    objects = p.objects ++ object ∷ [];
  }

  pub add_object_lem :
      (p : IndexPool) (object : ℕ)
      → p.max_index ≤ max_num
      → add_object max_num p object ≡ (p.max_index, added p object)
  unfolding add_object added
  add_object_lem p object h = ground arith

  added_once :
      {p : IndexPool} (object : ℕ)
      → IsValid p
      → ¬ (In object p.objects)
      → (i j : ℕ) → ((p.max_index == i) ≡ true) ⊎ ((p.max_index == i) ≡ false)
      → ((p.max_index == j) ≡ true) ⊎ ((p.max_index == j) ≡ false)
      → (if p.max_index == i then object else slot p.object_array i) ≢ 0
      → (if p.max_index == i then object else slot p.object_array i)
        ≡ (if p.max_index == j then object else slot p.object_array j)
      → i ≡ j
  added_once {p} object v new i j (inl a) (inl b) nz e =
      sym ((==_iff p.max_index i).0 a) ∙ (==_iff p.max_index j).0 b
  added_once {p} object v new i j (inl a) (inr b) nz e =
      let q : object ≡ slot p.object_array j = rw (a, b) at e in
      absurd (new (v.held j object (rw a at nz) (sym q)))
  added_once {p} object v new i j (inr a) (inl b) nz e =
      let q : slot p.object_array i ≡ object = rw (a, b) at e in
      let nz' : slot p.object_array i ≢ 0 = rw a at nz in
      absurd (new (v.held i object (λ z. nz' (q ∙ z)) q))
  added_once object v new i j (inr a) (inr b) nz e = v.once i j (rw a at nz) (rw (a, b) at e)

  added-IsValid :
      {p : IndexPool} (object : ℕ)
      → IsValid p
      → max_num < 2 ^ 32 - 1
      → p.max_index ≤ max_num
      → object ≢ 0
      → ¬ (In object p.objects)
      → IsValid (added p object)
  unfolding added count
  added-IsValid {p} object v small room ne new =
      let inside : p.max_index < length p.object_array = omega (arith, v.array_length) in
      let at_slot = λ (i : ℕ). slot-set p.object_array p.max_index i object inside in
      let here = slot-set_self p.object_array p.max_index object inside in
      record {
        array_length = length-set p.object_array p.max_index object ∙ v.array_length;
        bound = omega arith;
        free = λ i h.
            slot-set_ne p.object_array p.max_index i object (λ e. omega arith)
            ∙ v.free i (omega arith);
        listed = λ a nz h. elim (In-append a p.objects (object ∷ []) h) [
          | inl old ↦
              let (i, e) = v.listed a nz old in
              (
                i,
                slot-set_ne p.object_array p.max_index i object
                      (λ q. nz (sym e ∙ v.free i (omega arith)))
                    ∙ e,
              )
          | inr (inl e) ↦ (p.max_index, here ∙ e)
          | inr (inr k) ↦ absurd k
        ];
        held = λ i a nz e. elim (Bool-cases (p.max_index == i)) [
          | inl same ↦
              In-append_right a p.objects (object ∷ []) (inl (rw same at (sym (at_slot i) ∙ e)))
          | inr other ↦
              In-append_left a p.objects (object ∷ [])
                (v.held i a nz (rw other at (sym (at_slot i) ∙ e)))
        ];
        once = λ i j nz e.
            let e' = sym (at_slot i) ∙ e ∙ at_slot j in
            let nz' = λ (q : (if p.max_index == i then object else slot p.object_array i) ≡ 0).
              nz (at_slot i ∙ q) in
            added_once object v new i j (Bool-cases (p.max_index == i))
              (Bool-cases (p.max_index == j)) nz' e';
        no_null = λ h. elim (In-append 0 p.objects (object ∷ []) h) [
          | inl old ↦ v.no_null old
          | inr (inl e) ↦ ne e
          | inr (inr k) ↦ k
        ];
        single = λ a. ground (
          arith,
          count-append a p.objects (object ∷ []),
          v.single a,
          count-absent object p.objects new,
        );
        counted = omega (arith, v.counted, v.few, length-append p.objects (object ∷ []));
        few = omega (arith, v.few, length-append p.objects (object ∷ []));
        vacant = λ i. ground (arith, v.vacant i, at_slot i, ne, small);
      }

  pub get_object_same :
      (p q : IndexPool) (i : ℕ)
      → slot q.object_array i ≡ slot p.object_array i
      → get_object max_num q i ≡ get_object max_num p i
  unfolding get_object
  get_object_same p q i e = ap (λ x. if leb i max_num then some x else none) e

  pub get_object_at :
      (p : IndexPool) (i x : ℕ)
      → i ≤ max_num
      → slot p.object_array i ≡ x
      → get_object max_num p i ≡ some x
  unfolding get_object
  get_object_at p i x h e = rw (le→leb _ _ h) (ap some e)

  -- While a fresh index is left, `addObject` gives a new pointer an index of its own: the pool stays
  -- consistent, the index reads the pointer, and every other index reads as before.
  pub add_object-IsValid :
      (p : IndexPool) (object : ℕ)
      → IsValid p
      → max_num < 2 ^ 32 - 1
      → p.max_index ≤ max_num
      → object ≢ 0
      → ¬ (In object p.objects)
      → let (i, q) = add_object max_num p object in
        IsValid q
        × (get_object max_num q i ≡ some object)
        × ((j : ℕ) → j ≢ i → get_object max_num q j ≡ get_object max_num p j)
        × (each q ≡ each p ++ object ∷ [])
  unfolding each added
  add_object-IsValid p object v small room ne new = rw (add_object_lem p object room) (
    added-IsValid object v small room ne new,
    get_object_at (added p object) p.max_index object room
        (slot-set_self p.object_array p.max_index object (omega (arith, v.array_length))),
    λ j other.
        get_object_same p (added p object) j
          (slot-set_ne p.object_array p.max_index j object (λ e. other (sym e))),
    refl,
  )
