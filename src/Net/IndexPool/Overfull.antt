-- ===== src/Net/IndexPool/Overfull.antt =====
-- ObjectIndexPool.hpp when the fresh indexes have run out. The constructor puts `MAX_NUM` in the list
-- of free indexes, though it is also the last of the fresh ones.
use asio_utils.Base.{
  ℕ, suc, ◌+◌, ◌-◌, ◌%◌, ◌^◌, ◌≤◌, ◌<◌, ◌≡◌, refl, sym, ap, ◌∙◌, List, [], ◌∷◌, ◌++◌, true, some,
  arith, le→leb, length, length-set, length-append, length-replicate, set, append_assoc, append-nil,
}
use asio_utils.Net.IndexPool.{IndexPool, init, store, reuse, add_object, get_object, is_full, each}
use asio_utils.Net.IndexPool.Lists.{slot-set_self}

module _ (max_num : ℕ) where
  -- Objects added one after another.
  pub fill : IndexPool → List ℕ → IndexPool
  fill p [] = p
  fill p (x ∷ xs) = fill (add_object max_num p x).1 xs

  -- What `n` additions to a pool with that many fresh indexes leave.
  record Filled (p q : IndexPool) (xs : List ℕ) : Type 0 where
    index : q.max_index ≡ p.max_index + length xs
    count : q.size ≡ (p.size + length xs) % 2 ^ 32
    array : length q.object_array ≡ length p.object_array
    list : q.objects ≡ p.objects ++ xs
    free : q.invalid_indexs ≡ p.invalid_indexs

  fill-Filled :
      (p : IndexPool) (xs : List ℕ)
      → max_num < 2 ^ 32 - 1
      → p.size < 2 ^ 32
      → p.max_index + length xs ≤ suc max_num
      → Filled p (fill p xs) xs
  unfolding fill add_object store
  fill-Filled p [] small s h = record {
    index = omega arith;
    count = omega arith;
    array = refl;
    list = sym (append-nil p.objects);
    free = refl;
  }
  fill-Filled p (x ∷ xs) small s h = rw (le→leb p.max_index max_num (omega arith)) (
      let q : IndexPool = record p {
        max_index = (p.max_index + 1) % 2 ^ 32;
        size = (p.size + 1) % 2 ^ 32;
        object_array = set p.object_array p.max_index x;
        objects = p.objects ++ x ∷ [];
      } in
      let f = fill-Filled q xs small (omega arith) (omega arith) in
      record {
        index = f.index ∙ omega arith;
        count = f.count ∙ omega arith;
        array = f.array ∙ length-set p.object_array p.max_index x;
        list = f.list ∙ append_assoc p.objects (x ∷ []) xs;
        free = f.free;
      })

  fill_last :
      (p : IndexPool) (xs : List ℕ) (x : ℕ)
      → fill p (xs ++ x ∷ []) ≡ (add_object max_num (fill p xs) x).1
  unfolding fill
  fill_last p [] x = refl
  fill_last p (y ∷ ys) x = fill_last (add_object max_num p y).1 ys x

  add_last :
      (p : IndexPool) (x : ℕ)
      → p.max_index ≡ max_num
      → length p.object_array ≡ suc max_num
      → get_object max_num (add_object max_num p x).1 max_num ≡ some x
  unfolding add_object store get_object
  add_last p x e len =
      rw (le→leb p.max_index max_num (omega arith), le→leb max_num max_num (omega arith), e)
        (ap some (slot-set_self p.object_array max_num x (omega arith)))

  -- The pool after an object went over the one at the last index.
  over : IndexPool → ℕ → IndexPool
  unfolding store
  over p x = record (store max_num p max_num x) { invalid_indexs = [] }

  add_over :
      (p : IndexPool) (x : ℕ)
      → p.max_index ≡ suc max_num
      → p.invalid_indexs ≡ max_num ∷ []
      → max_num < 2 ^ 32 - 2
      → add_object max_num p x ≡ (max_num, over p x)
  unfolding add_object over reuse
  add_over p x e f small = ground arith

  over_reads :
      (p : IndexPool) (x : ℕ)
      → length p.object_array ≡ suc max_num
      → get_object max_num (over p x) max_num ≡ some x
  unfolding over get_object
  over_reads p x len =
      rw (le→leb max_num max_num (omega arith))
        (ap some (slot-set_self p.object_array max_num x (omega arith)))

  -- A pool filled to its last index gives that index out again: the next object is stored over the
  -- last one, which stays in the list that `foreach` visits but can no longer be reached by an index,
  -- and the pool counts one object more than it has slots. Fewer than 2 ^ 32 - 1 indexes.
  pub overfull :
      (xs : List ℕ) (last next : ℕ)
      → max_num < 2 ^ 32 - 2
      → length xs ≡ max_num
      → let p = fill (init max_num) (xs ++ last ∷ []) in
        let (i, q) = add_object max_num p next in
        (get_object max_num p max_num ≡ some last)
        × (is_full max_num p ≡ true)
        × (i ≡ max_num)
        × (get_object max_num q max_num ≡ some next)
        × (each q ≡ xs ++ last ∷ next ∷ [])
        × (q.size ≡ max_num + 2)
  unfolding init each is_full over
  overfull xs last next small e =
      let none_yet : IndexPool = init max_num in
      let p = fill none_yet (xs ++ last ∷ []) in
      let size : length (xs ++ last ∷ []) ≡ suc max_num =
        omega (arith, length-append xs (last ∷ [])) in
      let f =
        fill-Filled none_yet (xs ++ last ∷ []) (omega arith) (omega arith) (omega (arith, size)) in
      let g = fill-Filled none_yet xs (omega arith) (omega arith) (omega arith) in
      let slots : length p.object_array ≡ suc max_num =
        f.array ∙ length-replicate {A = ℕ} (suc max_num) 0 in
      let split : p ≡ (add_object max_num (fill none_yet xs) last).1 = fill_last none_yet xs last in
      let a = add_over p next (omega (arith, f.index, size)) f.free small in
      (
        ap (λ (r : IndexPool). get_object max_num r max_num) split
            ∙ add_last (fill none_yet xs) last (omega (arith, g.index, e))
                (g.array ∙ length-replicate {A = ℕ} (suc max_num) 0),
        ground (arith, f.count, size),
        ap (λ (r : ℕ × IndexPool). r.0) a,
        ap (λ (r : ℕ × IndexPool). get_object max_num r.1 max_num) a ∙ over_reads p next slots,
        ap (λ (r : ℕ × IndexPool). r.1.objects) a
            ∙ ap (λ ys. ys ++ next ∷ []) f.list
            ∙ append_assoc xs (last ∷ []) (next ∷ []),
        ap (λ (r : ℕ × IndexPool). r.1.size) a ∙ omega (arith, f.count, size),
      )
