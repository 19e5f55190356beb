-- ===== src/Utils/Cache/Alive.antt =====
-- A pinned value stays allocated.
use fat_fritz.Common.{
  ℕ, zero, suc, ◌-◌, ◌%◌, Bool, true, false, not, ◌&&◌, ◌||◌, ◌==◌, ltb, Option, none, some, length,
  ◌≡◌, refl, ap, ◌∙◌, arith, Bool-cases, inl, inr,
}
use fat_fritz.Common.Int.{pos, eq_ℤ}
use fat_fritz.Utils.Cache.Addresses.{has, last, is_empty, has-remove, has-last}
use fat_fritz.Utils.Cache.{
  Cache, find_key, evict_item, shrink_loop, shrink_to_capacity, evict_found, evict_key,
  insert_into_lru, add_item, insert,
}
use fat_fritz.Utils.Cache.Valid.{IsValid, evict_item-IsValid, shrink_to_capacity-IsValid}
use fat_fritz.Utils.Cache.Insert.{find_key-some, evict_key-Lacks, shrink_to_capacity-IsLess}

-- The item is allocated: in the queue or among the evicted ones.
abbrev pub is_alive : Cache → ℕ → Bool
is_alive c a = has a c.queue || has a c.evicted

-- The item is allocated and pinned, as it was before.
pub record StaysPinned (c d : Cache) (a : ℕ) : Type 0 where
  pub still_alive : is_alive d a ≡ true
  pub same_item : d.items a ≡ c.items a

module _ (hasher : ℕ → ℕ) (a : ℕ) where
  evict_item-is_alive :
      (c : Cache) (x : ℕ)
      → IsValid hasher c
      → has x c.queue ≡ true
      → is_alive c a ≡ true
      → eq_ℤ (c.items a).pins (pos 0) ≡ false
      → is_alive (evict_item hasher c x) a ≡ true
  unfolding evict_item has
  evict_item-is_alive c x v here alive pinned =
      let b = hasher (c.items x).key % c.buckets in
      let same : a ≡ x → (c.items a).pins ≡ (c.items x).pins = λ q. ap (λ y. (c.items y).pins) q in
      let found : has x (c.chain b) ≡ true = v.chained x b ∙ ground (arith, here) in
      ground (arith, found, alive, pinned, same, has-remove x a c.queue v.queue_distinct)

  still_pinned :
      (c : Cache) (x : ℕ)
      → eq_ℤ (c.items a).pins (pos 0) ≡ false
      → eq_ℤ ((evict_item hasher c x).items a).pins (pos 0) ≡ false
  unfolding evict_item
  still_pinned c x h = h

  -- Whatever a shrinking cache evicts, the item stays.
  shrink_loop-is_alive :
      (fuel : ℕ) (c : Cache) (n : ℕ)
      → IsValid hasher c
      → is_alive c a ≡ true
      → eq_ℤ (c.items a).pins (pos 0) ≡ false
      → is_alive (shrink_loop hasher fuel c n) a ≡ true
  unfolding shrink_loop
  shrink_loop-is_alive zero c n v alive pinned = alive
  shrink_loop-is_alive (suc fuel) c n v alive pinned =
      elim (Bool-cases (not (is_empty c.queue) && ltb n c.size)) [
        | inl on ↦
            let tail = last c.queue 0 in
            let here = has-last 0 c.queue (ground (arith, on)) in
            rw (on) (
              shrink_loop-is_alive fuel (evict_item hasher c tail) n
                (evict_item-IsValid hasher c tail v here)
                (evict_item-is_alive c tail v here alive pinned) (still_pinned c tail pinned))
        | inr off ↦ rw (off) alive
      ]

  evict_found-is_alive :
      (c : Cache) (key : ℕ) (o : Option ℕ)
      → IsValid hasher c
      → find_key c.items key (c.chain (hasher key % c.buckets)) ≡ o
      → is_alive c a ≡ true
      → eq_ℤ (c.items a).pins (pos 0) ≡ false
      → is_alive (evict_found hasher c o) a ≡ true
  unfolding evict_found
  evict_found-is_alive c key none v e alive pinned = alive
  evict_found-is_alive c key (some x) v e alive pinned =
      let found = find_key-some c.items key x (c.chain (hasher key % c.buckets)) e in
      let here : has x c.queue ≡ true =
        ground (arith, found, v.chained x (hasher key % c.buckets)) in
      evict_item-is_alive c x v here alive pinned

  add_item-StaysPinned :
      (c : Cache) (key value : ℕ)
      → IsValid hasher c
      → is_alive c a ≡ true
      → StaysPinned c (add_item hasher c key value) a
  unfolding add_item insert_into_lru has
  add_item-StaysPinned c key value v alive =
      let off : (a == c.fresh) ≡ false = ground (arith, v.in_use a alive) in
      record { still_alive = ground (arith, alive); same_item = rw (off) refl }

  -- In a valid cache, an item that is allocated and whose pins are not 0 is still allocated and
  -- unchanged after the insertion of any key, whether or not it was evicted for it.
  pub insert-StaysPinned :
      (c : Cache) (key value : ℕ)
      → IsValid hasher c
      → is_alive c a ≡ true
      → eq_ℤ (c.items a).pins (pos 0) ≡ false
      → StaysPinned c (insert hasher c key value) a
  unfolding insert evict_key shrink_to_capacity
  insert-StaysPinned c key value v alive pinned = elim (Bool-cases (c.capacity == 0)) [
    | inl on ↦ rw (on) (record { still_alive = alive; same_item = refl })
    | inr off ↦
        let (w, lacks, less) = evict_key-Lacks hasher c key v in
        let e = evict_key hasher c key in
        let n = c.capacity - 1 in
        let kept =
          evict_found-is_alive c key (find_key c.items key (c.chain (hasher key % c.buckets))) v
            refl alive pinned in
        let same : e.items a ≡ c.items a = ap (λ items. items a) less.same_items in
        let shrunk =
          shrink_loop-is_alive (length e.queue) e n w kept
            (ap (λ i. eq_ℤ i.pins (pos 0)) same ∙ pinned) in
        let small = shrink_to_capacity-IsLess hasher e n w in
        let done =
          add_item-StaysPinned (shrink_to_capacity hasher e n) key value
            (shrink_to_capacity-IsValid hasher e n w) shrunk in
        rw (off) (record {
          still_alive = done.still_alive;
          same_item = done.same_item ∙ ap (λ items. items a) small.same_items ∙ same;
        })
  ]
