-- ===== src/Utils/Cache/Kept.antt =====
-- What Insert leaves of a cache as it is.
use fat_fritz.Common.{ℕ, ◌-◌, ◌==◌, ◌≡◌, refl, ◌∙◌, Bool-cases, inl, inr}
use fat_fritz.Utils.Cache.{Cache, insert, add_item, insert_into_lru, shrink_to_capacity, evict_key}
use fat_fritz.Utils.Cache.Valid.{IsValid, shrink_to_capacity-IsValid}
use fat_fritz.Utils.Cache.Insert.{
  evict_key-Lacks, add_item-IsValid, shrink_to_capacity-IsLess, Lacks-IsLess,
}

module _ (hasher : ℕ → ℕ) where
  -- Insert keeps a cache valid and its capacity as it is.
  pub insert-IsValid :
      (c : Cache) (key value : ℕ)
      → IsValid hasher c
      → IsValid hasher (insert hasher c key value)
        × ((insert hasher c key value).capacity ≡ c.capacity)
  unfolding insert add_item insert_into_lru
  insert-IsValid c key value v = elim (Bool-cases (c.capacity == 0)) [
    | inl on ↦ rw (on) (v, refl)
    | inr off ↦
        let (w, lacks, less) = evict_key-Lacks hasher c key v in
        let e = evict_key hasher c key in
        let n = c.capacity - 1 in
        let small = shrink_to_capacity-IsLess hasher e n w in
        rw (off) (
          add_item-IsValid hasher (shrink_to_capacity hasher e n) key value
              (shrink_to_capacity-IsValid hasher e n w)
              (Lacks-IsLess e (shrink_to_capacity hasher e n) key small lacks),
          small.same_capacity ∙ less.same_capacity,
        )
  ]
