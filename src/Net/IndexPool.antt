-- ===== src/Net/IndexPool.antt =====
-- ASIO_ALONE_STUDY/Net/Util/ObjectIndexPool.hpp at a type of pointers: a pointer is its address, and
-- 0 is `nullptr`. The indexes and counts are `unsigned int`, which wraps; `max_num` is `MAX_NUM`.
pub mod Lists
pub mod Slots
pub mod Removal
pub mod Overfull
mod Tests
use asio_utils.Base.{
  ℕ, zero, suc, ◌+◌, ◌-◌, ◌%◌, ◌^◌, Bool, List, [], ◌∷◌, ◌++◌, Option, none, some, leb, ◌==◌,
  if◌then◌else◌, get_elem?, set, replicate,
}

abbrev pub pool_invalid_index : ℕ
pool_invalid_index = 0xffff_ffff

pub record IndexPool : Type 0 where
  pub max_index : ℕ
  pub size : ℕ
  pub object_array : List ℕ
  pub objects : List ℕ
  pub invalid_indexs : List ℕ

-- The elements that `std::list::remove` leaves.
pub without : ℕ → List ℕ → List ℕ
without a [] = []
without a (x ∷ xs) = let rest = without a xs in if x == a then rest else x ∷ rest

-- An element of the array; its range is the caller's concern.
abbrev pub slot : List ℕ → ℕ → ℕ
slot [] i = 0
slot (x ∷ xs) zero = x
slot (x ∷ xs) (suc i) = slot xs i

module _ (max_num : ℕ) where
  unfoldable pub init : IndexPool
  init = record {
    max_index = 0;
    size = 0;
    object_array = replicate (suc max_num) 0;
    objects = [];
    invalid_indexs = max_num ∷ [];
  }

  -- The object at `index`, counted and listed.
  store : IndexPool → ℕ → ℕ → IndexPool
  store p index object = record p {
    object_array = set p.object_array index object;
    objects = p.objects ++ object ∷ [];
    size = (p.size + 1) % 2 ^ 32;
  }

  reuse : IndexPool → List ℕ → ℕ → ℕ × IndexPool
  unfolding store
  reuse p [] object = (pool_invalid_index, p)
  reuse p (index ∷ rest) object =
      if index == pool_invalid_index
      then (pool_invalid_index, p)
      else (index, record (store p index object) { invalid_indexs = rest })

  pub add_object : IndexPool → ℕ → ℕ × IndexPool
  unfolding store reuse
  add_object p object =
      if leb p.max_index max_num
      then (
        p.max_index,
        record (store p p.max_index object) { max_index = (p.max_index + 1) % 2 ^ 32 },
      )
      else reuse p p.invalid_indexs object

  pub remove_object : IndexPool → ℕ → IndexPool
  unfolding without
  remove_object p index =
      if leb index max_num
      then record p {
        size = (p.size + 2 ^ 32 - 1) % 2 ^ 32;
        objects = without (slot p.object_array index) p.objects;
        object_array = set p.object_array index 0;
        invalid_indexs = p.invalid_indexs ++ index ∷ [];
      }
      else p

  -- The index is asserted to be in range.
  unfoldable pub get_object : IndexPool → ℕ → Option ℕ
  get_object p index = if leb index max_num then some (slot p.object_array index) else none

  pub is_full : IndexPool → Bool
  is_full p = p.size == (max_num + 1) % 2 ^ 64

pub get_size : IndexPool → ℕ
get_size p = p.size

-- The objects that `foreach` calls back, in order.
unfoldable pub each : IndexPool → List ℕ
each p = p.objects
