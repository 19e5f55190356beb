-- ===== src/Utils/Cache/Reached.antt =====
-- States that the operations of a cache lead to.
use mathlib.Core.Option.{some-injective}
use fat_fritz.Common.{
  ℕ, ◌-◌, ◌%◌, ◌≤◌, true, false, ◌==◌, [], Option, none, some, ◌≡◌, ◌≢◌, refl, sym, ◌∙◌, subst,
  arith, Bool-cases, inl, inr,
}
use fat_fritz.Common.Int.{pos, neg, eq_ℤ}
use fat_fritz.Utils.Cache.Addresses.{has, distinct, has-empty}
use fat_fritz.Utils.Cache.{
  Item, Cache, repinned, find_key, shrink_to_capacity, evict_key, insert_into_lru, add_item, insert,
  pin_found, lookup_and_pin, find_entry, unpin_active, unpin_evicted, unpin, clear, empty_cache,
  set_capacity,
}
use fat_fritz.Utils.Cache.Valid.{IsValid, shrink_to_capacity-IsValid, shrink_to_capacity-size}
use fat_fritz.Utils.Cache.Insert.{
  Lacks-IsLess, evict_key-Lacks, shrink_to_capacity-IsLess, add_item-IsValid,
}
use fat_fritz.Utils.Cache.Pins.{lookup_and_pin-IsValid, unpin-IsValid}

module _ (hasher : ℕ → ℕ) (table_size : ℕ → ℕ) where
  -- The states of a cache, from its construction on. A change of the capacity counts when it leaves no
  -- item in the queue.
  pub data Reached : Cache → Type 0 where
    constructed :
        (capacity : ℕ) (items : ℕ → Item) → Reached (empty_cache hasher table_size capacity items)
    inserted : (c : Cache) (key value : ℕ) → Reached c → Reached (insert hasher c key value)
    looked_up : (c : Cache) (key : ℕ) → Reached c → Reached (lookup_and_pin hasher c key).1
    unpinned : (c : Cache) (key value : ℕ) → Reached c → Reached (unpin hasher c key value)
    cleared : (c : Cache) → Reached c → Reached (clear hasher c)
    resized :
        (c c' : Cache) (capacity : ℕ)
        → Reached c
        → (shrink_to_capacity hasher c capacity).size ≡ 0
        → set_capacity hasher table_size c capacity ≡ some c'
        → Reached c'

  -- A valid cache that holds no more than its capacity.
  pub record IsBounded (c : Cache) : Type 0 where
    pub valid : IsValid hasher c
    pub fits : c.size ≤ c.capacity

  add_fits :
      (c : Cache) (key value capacity : ℕ)
      → c.size ≤ capacity - 1
      → capacity ≢ 0
      → c.capacity ≡ capacity
      → (add_item hasher c key value).size ≤ (add_item hasher c key value).capacity
  unfolding add_item insert_into_lru
  add_fits c key value capacity h k e = omega (arith, h, k, e)

  -- Two caches of the same size and capacity.
  abbrev SameSize : Cache → Cache → Type 0
  SameSize c d = (d.size ≡ c.size) × (d.capacity ≡ c.capacity)

  same_size : (c d : Cache) → SameSize c d → c.size ≤ c.capacity → d.size ≤ d.capacity
  same_size c d e h = omega (arith, e.0, e.1, h)

  pin_found-size : (c : Cache) (o : Option ℕ) → SameSize c (pin_found hasher c o).1
  unfolding pin_found
  pin_found-size c none = (refl, refl)
  pin_found-size c (some a) = (refl, refl)

  lookup_and_pin-size : (c : Cache) (key : ℕ) → SameSize c (lookup_and_pin hasher c key).1
  unfolding lookup_and_pin
  lookup_and_pin-size c key = elim (Bool-cases (c.capacity == 0)) [
    | inl on ↦ rw (on) (refl, refl)
    | inr off ↦
        rw (off) (pin_found-size c (find_key c.items key (c.chain (hasher key % c.buckets))))
  ]

  unpin_active-size : (c : Cache) (o : Option ℕ) → SameSize c (unpin_active hasher c o)
  unfolding unpin_active
  unpin_active-size c none = (refl, refl)
  unpin_active-size c (some a) = (refl, refl)

  unpin_evicted-size :
      (c active : Cache) (o : Option ℕ)
      → SameSize c active
      → SameSize c (unpin_evicted hasher c active o)
  unfolding unpin_evicted
  unpin_evicted-size c active none h = h
  unpin_evicted-size c active (some a) h =
      elim (Bool-cases (eq_ℤ (repinned c.items a (neg (pos 1)) a).pins (pos 0))) [
        | inl on ↦ rw (on) (refl, refl)
        | inr off ↦ rw (off) (refl, refl)
      ]

  unpin-size : (c : Cache) (key value : ℕ) → SameSize c (unpin hasher c key value)
  unfolding unpin
  unpin-size c key value =
      unpin_evicted-size c _ (find_entry c.items key value c.evicted)
        (unpin_active-size c (find_entry c.items key value (c.chain (hasher key % c.buckets))))

  insert-IsBounded :
      (c : Cache) (key value : ℕ) → IsBounded c → IsBounded (insert hasher c key value)
  unfolding insert
  insert-IsBounded c key value v = elim (Bool-cases (c.capacity == 0)) [
    | inl on ↦ rw (on) v
    | inr off ↦
        let (w, lacks, less) = evict_key-Lacks hasher c key v.valid in
        let e = evict_key hasher c key in
        let n = c.capacity - 1 in
        let small = shrink_to_capacity-IsLess hasher e n w in
        rw (off) (record {
          valid =
              add_item-IsValid hasher (shrink_to_capacity hasher e n) key value
                (shrink_to_capacity-IsValid hasher e n w)
                (Lacks-IsLess e (shrink_to_capacity hasher e n) key small lacks);
          fits =
              add_fits (shrink_to_capacity hasher e n) key value c.capacity
                (shrink_to_capacity-size hasher e n w) (ground (arith, off))
                (small.same_capacity ∙ less.same_capacity);
        })
  ]

  lookup_and_pin-IsBounded :
      (c : Cache) (key : ℕ) → IsBounded c → IsBounded (lookup_and_pin hasher c key).1
  lookup_and_pin-IsBounded c key v = record {
    valid = lookup_and_pin-IsValid hasher c key v.valid;
    fits = same_size c (lookup_and_pin hasher c key).1 (lookup_and_pin-size c key) v.fits;
  }

  unpin-IsBounded : (c : Cache) (key value : ℕ) → IsBounded c → IsBounded (unpin hasher c key value)
  unpin-IsBounded c key value v = record {
    valid = unpin-IsValid hasher c key value v.valid;
    fits = same_size c (unpin hasher c key value) (unpin-size c key value) v.fits;
  }

  clear-IsBounded : (c : Cache) → IsBounded c → IsBounded (clear hasher c)
  unfolding clear
  clear-IsBounded c v = record {
    valid = shrink_to_capacity-IsValid hasher c 0 v.valid;
    fits = omega (arith, shrink_to_capacity-size hasher c 0 v.valid);
  }

  empty-IsBounded :
      (capacity : ℕ) (items : ℕ → Item) → IsBounded (empty_cache hasher table_size capacity items)
  unfolding empty_cache has distinct
  empty-IsBounded capacity items = record {
    valid = record {
      size_right = refl;
      allocated_right = refl;
      queue_distinct = refl;
      evicted_distinct = refl;
      apart = λ a. refl;
      in_use = λ a h. absurd (ground (arith, h));
      chained = λ a b. refl;
      chains_distinct = λ b. refl;
      keys_differ = λ a a' h k e. absurd (ground (arith, h));
      pinned = λ a h. absurd (ground (arith, h));
    };
    fits = omega arith;
  }

  -- A cache whose queue is empty gets a new empty table.
  renewed-IsValid :
      (c : Cache) (capacity : ℕ)
      → IsValid hasher c
      → c.size ≡ 0
      → IsValid hasher
          (record c { capacity = capacity; buckets = table_size capacity; chain = λ _. [] })
  unfolding has distinct
  renewed-IsValid c capacity v e =
      let none_left : (a : ℕ) → has a c.queue ≡ false =
        λ a. has-empty a c.queue (sym v.size_right ∙ e) in
      record {
        size_right = v.size_right;
        allocated_right = v.allocated_right;
        queue_distinct = v.queue_distinct;
        evicted_distinct = v.evicted_distinct;
        apart = v.apart;
        in_use = v.in_use;
        chained = λ a b. ground (arith, none_left a);
        chains_distinct = λ b. refl;
        keys_differ = v.keys_differ;
        pinned = v.pinned;
      }

  set_capacity-IsBounded :
      (c c' : Cache) (capacity : ℕ)
      → IsBounded c
      → (shrink_to_capacity hasher c capacity).size ≡ 0
      → set_capacity hasher table_size c capacity ≡ some c'
      → IsBounded c'
  unfolding set_capacity
  set_capacity-IsBounded c c' capacity v e h =
      let small = shrink_to_capacity hasher c capacity in
      let emptied : (small.size == 0) ≡ true = ground (arith, e) in
      let w =
        renewed-IsValid small capacity (shrink_to_capacity-IsValid hasher c capacity v.valid) e in
      elim (Bool-cases (c.capacity == capacity)) [
        | inl on ↦ subst IsBounded (some-injective _ _ (rw (on) at h)) v
        | inr off ↦
            subst IsBounded (some-injective _ _ (rw (off, emptied) at h))
              (record { valid = w; fits = omega (arith, e) })
      ]

  -- A cache that insertions, lookups, unpinnings, clearings and changes of the capacity which
  -- leave no item lead to from its construction is valid and within its capacity: the counts are
  -- right, an item stands in the chain of its key exactly while it is in the queue, no key is
  -- there twice, and the evicted items that are still allocated are the pinned ones.
  pub Reached-IsBounded : (c : Cache) → Reached c → IsBounded c
  Reached-IsBounded c (constructed capacity items) = empty-IsBounded capacity items
  Reached-IsBounded c (inserted d key value r) =
      insert-IsBounded d key value (Reached-IsBounded d r)
  Reached-IsBounded c (looked_up d key r) = lookup_and_pin-IsBounded d key (Reached-IsBounded d r)
  Reached-IsBounded c (unpinned d key value r) = unpin-IsBounded d key value (Reached-IsBounded d r)
  Reached-IsBounded c (cleared d r) = clear-IsBounded d (Reached-IsBounded d r)
  Reached-IsBounded c (resized d c' capacity r e h) =
      set_capacity-IsBounded d c capacity (Reached-IsBounded d r) e h
