-- ===== src/Utils/Cache/Unlock.antt =====
-- The destructor of a LruCacheLock undoes LookupAndPin.
use mathlib.Core.Option.{some-injective}
use fat_fritz.Common.{
  ℕ, ◌%◌, Bool, true, false, ◌&&◌, ◌||◌, ◌==◌, List, [], ◌∷◌, Option, none, some, ◌≡◌, refl, ap,
  sym, ◌∙◌, subst, fun_ext, arith, Bool-cases, inl, inr,
}
use fat_fritz.Common.Int.{ℤ, pos, neg, ◌+ℤ◌}
use fat_fritz.Utils.Cache.Addresses.{has}
use fat_fritz.Utils.Cache.{
  Item, Cache, repinned, find_key, find_entry, pin_found, lookup_and_pin, unpin_active,
  unpin_evicted, unpin, unlock,
}
use fat_fritz.Utils.Cache.Valid.{IsValid}
use fat_fritz.Utils.Cache.Insert.{find_key-some}
use fat_fritz.Utils.Cache.Pins.{repinned-key}

-- No two items of a cache hold the same value: each owns its own.
pub record ValuesDiffer (c : Cache) : Type 0 where
  pub same_item :
      (a a' : ℕ)
      → (has a c.queue || has a c.evicted) ≡ true
      → (has a' c.queue || has a' c.evicted) ≡ true
      → (c.items a).value ≡ (c.items a').value
      → a ≡ a'

module _ (items : ℕ → Item) (key value : ℕ) where
  abbrev matches : ℕ → Bool
  matches x = key == (items x).key && value == (items x).value

  find_entry-none :
      (xs : List ℕ)
      → ((x : ℕ) → has x xs ≡ true → matches x ≡ false)
      → find_entry items key value xs ≡ none
  unfolding find_entry has
  find_entry-none [] h = refl
  find_entry-none (x ∷ xs) h =
      let off = h x (ground arith) in rw (off) (find_entry-none xs (λ y k. h y (ground (arith, k))))

  find_entry-only :
      (a : ℕ) (xs : List ℕ)
      → has a xs ≡ true
      → matches a ≡ true
      → ((x : ℕ) → has x xs ≡ true → matches x ≡ true → x ≡ a)
      → find_entry items key value xs ≡ some a
  unfolding find_entry has
  find_entry-only a [] here on h = absurd (ground (arith, here))
  find_entry-only a (x ∷ xs) here on h = elim (Bool-cases (matches x)) [
    | inl hit ↦ rw (hit) (ap some (h x (ground arith) hit))
    | inr miss ↦
        let other : (x == a) ≡ false = elim (Bool-cases (x == a)) [
          | inl same ↦
              absurd (ground (arith, miss, on, ap matches {x = x} {y = a} (ground (arith, same))))
          | inr differ ↦ differ
        ] in
        rw (miss)
          (find_entry-only a xs (ground (arith, here, other)) on (λ y k. h y (ground (arith, k))))
  ]

repinned-value :
    (items : ℕ → Item) (a : ℕ) (n : ℤ) (x : ℕ) → (repinned items a n x).value ≡ (items x).value
repinned-value items a n x = elim (Bool-cases (x == a)) [
  | inl on ↦ rw (on) (ap (λ y. (items y).value) {x = a} {y = x} (ground (arith, on)))
  | inr off ↦ rw (off) refl
]

there_and_back : (n : ℤ) → (n +ℤ pos 1) +ℤ neg (pos 1) ≡ n
there_and_back n = ground arith

pins_restored :
    (items : ℕ → Item) (a x : ℕ) → repinned (repinned items a (pos 1)) a (neg (pos 1)) x ≡ items x
pins_restored items a x =
    let itself : (a == a) ≡ true = ground arith in
    elim (Bool-cases (x == a)) [
      | inl on ↦
          rw (on, itself)
            (ap (λ n. record (items a) { pins = n }) (there_and_back (items a).pins)
              ∙ ap items {x = a} {y = x} (ground (arith, on)))
      | inr off ↦ rw (off) refl
    ]

module _ (hasher : ℕ → ℕ) where
  unpin-pin :
      (c : Cache) (key a : ℕ)
      → IsValid hasher c
      → ValuesDiffer c
      → find_key c.items key (c.chain (hasher key % c.buckets)) ≡ some a
      → unpin hasher (record c { items = repinned c.items a (pos 1) }) key (c.items a).value ≡ c
  unfolding unpin unpin_evicted unpin_active
  unpin-pin c key a v differ e =
      let b = hasher key % c.buckets in
      let pinned = repinned c.items a (pos 1) in
      let value = (c.items a).value in
      let found = find_key-some c.items key a (c.chain b) e in
      let here : has a c.queue ≡ true = ground (arith, found, v.chained a b) in
      let values : (x : ℕ) → (pinned x).value ≡ (c.items x).value =
        repinned-value c.items a (pos 1) in
      let keys : (x : ℕ) → (pinned x).key ≡ (c.items x).key =
        λ x. repinned-key c.items a x (pos 1) in
      let only : (x : ℕ)
          → (has x c.queue || has x c.evicted) ≡ true
          → matches pinned key value x ≡ true
          → x ≡ a =
        λ x used on.
          differ.same_item x a used (ground (arith, here)) (ground (arith, on, values x)) in
      let none_evicted : find_entry pinned key value c.evicted ≡ none =
        find_entry-none pinned key value c.evicted (λ x h.
          elim (Bool-cases (matches pinned key value x)) [
            | inl on ↦ absurd (
                ground (
                  arith,
                  v.apart a,
                  here,
                  subst (λ y. has y c.evicted ≡ true) (only x (ground (arith, h)) on) h,
                ))
            | inr off ↦ off
          ]) in
      let active : find_entry pinned key value (c.chain b) ≡ some a =
        find_entry-only pinned key value a (c.chain b) found.0
          (ground (arith, keys a, values a, found.1))
          (λ x h on. only x (ground (arith, h, v.chained x b)) on) in
      rw (none_evicted, active)
        (ap (λ (items : ℕ → Item). record c { items = items }) (fun_ext (pins_restored c.items a)))

  unlock-pin_found :
      (c : Cache) (key value : ℕ) (o : Option ℕ)
      → IsValid hasher c
      → ValuesDiffer c
      → find_key c.items key (c.chain (hasher key % c.buckets)) ≡ o
      → (pin_found hasher c o).0 ≡ some value
      → unlock hasher (pin_found hasher c o).1 key (some value) ≡ c
  unfolding pin_found unlock
  unlock-pin_found c key value none v differ e h = absurd (ground (arith, h))
  unlock-pin_found c key value (some a) v differ e h =
      ap (unpin hasher (record c { items = repinned c.items a (pos 1) }) key)
        (sym (some-injective _ _ h))
      ∙ unpin-pin c key a v differ e

  -- On a valid cache whose items hold different values, the destructor of the lock on a value that
  -- LookupAndPin found gives back the cache as it was, the pins of each item included.
  pub unlock-lookup_and_pin :
      (c : Cache) (key value : ℕ)
      → IsValid hasher c
      → ValuesDiffer c
      → (lookup_and_pin hasher c key).0 ≡ some value
      → unlock hasher (lookup_and_pin hasher c key).1 key (some value) ≡ c
  unfolding lookup_and_pin
  unlock-lookup_and_pin c key value v differ h = elim (Bool-cases (c.capacity == 0)) [
    | inl on ↦ absurd (ground (arith, rw (on) at h))
    | inr off ↦ rw (off) (
        unlock-pin_found c key value (find_key c.items key (c.chain (hasher key % c.buckets))) v
          differ refl (rw (off) at h))
  ]
