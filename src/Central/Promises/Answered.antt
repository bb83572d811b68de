-- ===== src/Central/Promises/Answered.antt =====
-- A request gets its own answer, whatever happens to the others meanwhile.
use asio_utils.Base.{
  ℕ, ◌<◌, ◌≡◌, ◌≢◌, refl, sym, ◌∙◌, ap, subst, Bool, true, false, List, [], ◌∷◌, Option, none, some,
  lookup, assign, discard, lookup-assign, lookup-discard, arith,
}
use asio_utils.Central.Promises.{
  PromiseProfile, PromiseFutureQueue, subscript_found, subscript, next_promise, future_data,
  set_value, set_found, set_data, remove_promise,
}

pub data Operation : Type 0 where
  next : Operation
  future removed : ℕ → Operation
  set : ℕ → ℕ → ℕ → Operation

unfoldable pub step : Operation → PromiseFutureQueue → PromiseFutureQueue
unfolding next_promise future_data remove_promise set_data
step next q = (next_promise q).1
step (future pid) q = (future_data pid q).1
step (removed pid) q = remove_promise pid q
step (set x value pid) q = (set_data x value pid q).1

unfoldable pub run : List Operation → PromiseFutureQueue → PromiseFutureQueue
unfolding step
run [] q = q
run (op ∷ ops) q = run ops (step op q)

-- Operations on other promises.
Other : ℕ → Operation → Type 0
Other pid next = Unit
Other pid (future p) = p ≢ pid
Other pid (removed p) = p ≢ pid
Other pid (set x value p) = p ≢ pid

unfoldable pub AllOther : ℕ → List Operation → Type 0
unfolding Other
AllOther pid [] = Unit
AllOther pid (op ∷ ops) = Other pid op × AllOther pid ops

-- The promise `pid` has the profile `p`, and the ids to come are others.
Waits : ℕ → PromiseProfile → PromiseFutureQueue → Type 0
Waits pid p q = (lookup pid q.promise_map ≡ some p) × (pid < q.next_id)

lookup-assign_ne :
    (k j : ℕ) (a : PromiseProfile) (m : List (ℕ × PromiseProfile))
    → k ≢ j
    → lookup j (assign k a m) ≡ lookup j m
lookup-assign_ne k j a m ne = lookup-assign k j a m ∙ ground (arith, ne)

lookup-discard_ne :
    (k j : ℕ) (m : List (ℕ × PromiseProfile)) → k ≢ j → lookup j (discard k m) ≡ lookup j m
lookup-discard_ne k j m ne = lookup-discard k j m ∙ ground (arith, ne)

set_value-Waits :
    (x value k pid : ℕ) (p : PromiseProfile) (q : PromiseFutureQueue) (r : PromiseProfile)
    (o : Option ℕ)
    → k ≢ pid
    → Waits pid p q
    → Waits pid p (set_value x value k q r o).1
unfolding set_value Waits
set_value-Waits x value k pid p q r none ne (e, h) = (
  lookup-assign_ne k pid (record r { any_data = x; promise = some value }) q.promise_map ne ∙ e,
  h,
)
set_value-Waits x value k pid p q r (some old) ne (e, h) =
    (lookup-assign_ne k pid (record r { any_data = x }) q.promise_map ne ∙ e, h)

set_found-Waits :
    (x value k pid : ℕ) (p : PromiseProfile) (q : PromiseFutureQueue) (o : Option PromiseProfile)
    → k ≢ pid
    → Waits pid p q
    → Waits pid p (set_found x value k q o).1
unfolding set_found Waits
set_found-Waits x value k pid p q none ne w = w
set_found-Waits x value k pid p q (some r) ne w = set_value-Waits x value k pid p q r r.promise ne w

step-Waits :
    (op : Operation) (pid : ℕ) (p : PromiseProfile) (q : PromiseFutureQueue)
    → Other pid op
    → Waits pid p q
    → Waits pid p (step op q)
unfolding step Other Waits next_promise future_data remove_promise set_data
step-Waits next pid p q o (e, h) = (
  lookup-assign_ne q.next_id pid (record (subscript q.next_id q) { promise_id = q.next_id })
        q.promise_map (λ f. omega (arith, h, f))
      ∙ e,
  omega (arith, h),
)
step-Waits (future k) pid p q ne (e, h) =
    (lookup-assign_ne k pid (subscript k q) q.promise_map ne ∙ e, h)
step-Waits (removed k) pid p q ne (e, h) = (lookup-discard_ne k pid q.promise_map ne ∙ e, h)
step-Waits (set x value k) pid p q ne w =
    set_found-Waits x value k pid p q (lookup k q.promise_map) ne w

run-Waits :
    (ops : List Operation) (pid : ℕ) (p : PromiseProfile) (q : PromiseFutureQueue)
    → AllOther pid ops
    → Waits pid p q
    → Waits pid p (run ops q)
unfolding run AllOther
run-Waits [] pid p q a w = w
run-Waits (op ∷ ops) pid p q (o, a) w =
    run-Waits ops pid p (step op q) a (step-Waits op pid p q o w)

lookup-assign_same :
    (k : ℕ) (a : PromiseProfile) (m : List (ℕ × PromiseProfile)) → lookup k (assign k a m) ≡ some a
lookup-assign_same k a m = lookup-assign k k a m ∙ ground arith

-- What the answer `r` to the promise `pid` leaves.
pub record IsAnswered (x value pid : ℕ) (r : Option Bool × PromiseFutureQueue) : Type 0 where
  pub accepted : r.0 ≡ some true
  pub filled : (subscript pid r.1).promise ≡ some value
  pub kept : (future_data pid r.1).0 ≡ x
  pub once : (y other : ℕ) → (set_data y other pid r.1).0 ≡ none
  pub same_value : (y other : ℕ) → (subscript pid (set_data y other pid r.1).1).promise ≡ some value
  pub replaced : (y other : ℕ) → (future_data pid (set_data y other pid r.1).1).0 ≡ y
  pub gone : (y other : ℕ) → (set_data y other pid (remove_promise pid r.1)).0 ≡ some false

set_data-IsAnswered :
    (x value pid : ℕ) (p : PromiseProfile) (q : PromiseFutureQueue)
    → lookup pid q.promise_map ≡ some p
    → p.promise ≡ none
    → IsAnswered x value pid (set_data x value pid q)
unfolding set_data set_found set_value subscript subscript_found future_data remove_promise
set_data-IsAnswered x value pid p q e unset =
    let filled : PromiseProfile = record p { any_data = x; promise = some value } in
    let m = assign pid filled q.promise_map in
    let found : lookup pid m ≡ some filled = lookup-assign_same pid filled q.promise_map in
    let again : (y other : ℕ)
        → lookup pid (set_data y other pid (record q { promise_map = m })).1.promise_map
          ≡ some (record filled { any_data = y }) =
      λ y other.
        ap (λ o. lookup pid (set_found y other pid (record q { promise_map = m }) o).1.promise_map)
          found
        ∙ lookup-assign_same pid (record filled { any_data = y }) m in
    let missing : lookup pid (discard pid m) ≡ none = lookup-discard pid pid m ∙ ground arith in
    subst (λ o. IsAnswered x value pid (set_found x value pid q o)) (sym e)
      (subst (λ v. IsAnswered x value pid (set_value x value pid q p v)) (sym unset)
        (record {
          accepted = refl;
          filled = ap (λ o. (subscript_found o).promise) found;
          kept = ap (λ o. (subscript_found o).any_data) found;
          once =
              λ y other. ap (λ o. (set_found y other pid (record q { promise_map = m }) o).0) found;
          same_value = λ y other. ap (λ o. (subscript_found o).promise) (again y other);
          replaced = λ y other. ap (λ o. (subscript_found o).any_data) (again y other);
          gone = λ y other.
              ap (λ o. (set_found y other pid (record q { promise_map = discard pid m }) o).0)
                missing;
        }))

-- A request that takes a promise, whose id is not in use: whatever is done with the others' promises
-- meanwhile, the answer with its id is accepted, fills the promise with its value, and leaves its data.
-- A second answer throws and leaves the value as it is, but its data is then in the place of the
-- first's. An answer after the promise is removed is refused.
pub next_promise-IsAnswered :
    (q : PromiseFutureQueue) (ops : List Operation) (x value : ℕ)
    → lookup q.next_id q.promise_map ≡ none
    → AllOther q.next_id ops
    → let (pid, q1) = next_promise q in IsAnswered x value pid (set_data x value pid (run ops q1))
unfolding next_promise subscript subscript_found Waits
next_promise-IsAnswered q ops x value free a =
    let pid = q.next_id in
    let (_, q1) = next_promise q in
    let p : PromiseProfile = record (subscript pid q) { promise_id = pid } in
    let (e, h) = run-Waits ops pid p q1 a (lookup-assign_same pid p q.promise_map, omega arith) in
    set_data-IsAnswered x value pid p (run ops q1) e (ap (λ o. (subscript_found o).promise) free)
