-- ===== src/Utils/Cache/Lookup.antt =====
-- LookupAndPin and ContainsKey read the contents of a cache.
use fat_fritz.Common.{
  ℕ, ◌%◌, true, false, ◌==◌, if◌then◌else◌, List, [], ◌∷◌, map, Option, none, some, ◌≡◌, ◌≢◌, refl,
  ap, ap₂, sym, ◌∙◌, arith, Bool-cases, inl, inr,
}
use fat_fritz.Common.Int.{ℤ, pos}
use fat_fritz.Common.Bools.{is_some}
use fat_fritz.Utils.Cache.Addresses.{has}
use fat_fritz.Utils.Cache.{Item, Cache, repinned, find_key, contains_key, pin_found, lookup_and_pin}
use fat_fritz.Utils.Cache.Valid.{IsValid}
use fat_fritz.Utils.Cache.Insert.{find_key-some, find_key-none}
use fat_fritz.Utils.Cache.Contents.{contents, entry_of}

-- The value of a key in a list of entries.
unfoldable pub value_of : ℕ → List (ℕ × ℕ) → Option ℕ
value_of key [] = none
value_of key (e ∷ es) = let rest = value_of key es in if key == e.0 then some e.1 else rest

value_of-none :
    (items : ℕ → Item) (key : ℕ) (q : List ℕ)
    → ((a : ℕ) → has a q ≡ true → (key == (items a).key) ≡ false)
    → value_of key (map (entry_of items) q) ≡ none
unfolding value_of has
value_of-none items key [] h = refl
value_of-none items key (x ∷ q) h =
    let off = h x (ground arith) in
    rw (off) (value_of-none items key q (λ a k. h a (ground (arith, k))))

value_of-some :
    (items : ℕ → Item) (key a : ℕ) (q : List ℕ)
    → has a q ≡ true
    → ((x : ℕ) → has x q ≡ true → (key == (items x).key) ≡ (x == a))
    → value_of key (map (entry_of items) q) ≡ some (items a).value
unfolding value_of has
value_of-some items key a [] here h = absurd (ground (arith, here))
value_of-some items key a (x ∷ q) here h = elim (Bool-cases (x == a)) [
  | inl on ↦
      let hit : (key == (items x).key) ≡ true = h x (ground arith) ∙ on in
      rw (hit) (ap (λ y. some (items y).value) {x = x} {y = a} (ground (arith, on)))
  | inr off ↦
      let miss : (key == (items x).key) ≡ false = h x (ground arith) ∙ off in
      rw (miss)
        (value_of-some items key a q (ground (arith, here, off)) (λ y k. h y (ground (arith, k))))
]

repinned-entry :
    (items : ℕ → Item) (a x : ℕ) (n : ℤ) → entry_of (repinned items a n) x ≡ entry_of items x
repinned-entry items a x n = elim (Bool-cases (x == a)) [
  | inl on ↦ rw (on) (ap (entry_of items) {x = a} {y = x} (ground (arith, on)))
  | inr off ↦ rw (off) refl
]

module _ (hasher : ℕ → ℕ) where
  found-value :
      (c : Cache) (key : ℕ) (o : Option ℕ)
      → IsValid hasher c
      → find_key c.items key (c.chain (hasher key % c.buckets)) ≡ o
      → (pin_found hasher c o).0 ≡ value_of key (contents c)
  unfolding pin_found
  found-value c key none v e =
      let lacks : (a : ℕ) → has a c.queue ≡ true → (key == (c.items a).key) ≡ false = λ a here.
        let same_key : key ≡ (c.items a).key → hasher key ≡ hasher (c.items a).key =
          λ q. ap hasher q in
        ground (
          arith,
          here,
          same_key,
          v.chained a (hasher key % c.buckets),
          find_key-none c.items key a (c.chain (hasher key % c.buckets)) e,
        ) in
      sym (value_of-none c.items key c.queue lacks)
  found-value c key (some a) v e =
      let found = find_key-some c.items key a (c.chain (hasher key % c.buckets)) e in
      let here : has a c.queue ≡ true =
        ground (arith, found, v.chained a (hasher key % c.buckets)) in
      let same : (x : ℕ) → x ≡ a → (c.items x).key ≡ (c.items a).key =
        λ x q. ap (λ y. (c.items y).key) q in
      sym (
        value_of-some c.items key a c.queue here
          (λ x hx. ground (arith, found, v.keys_differ a x here hx, same x)))

  repinned-contents :
      (items : ℕ → Item) (a : ℕ) (n : ℤ) (q : List ℕ)
      → map (entry_of (repinned items a n)) q ≡ map (entry_of items) q
  repinned-contents items a n [] = refl
  repinned-contents items a n (x ∷ q) =
      ap₂ (λ e es. e ∷ es) (repinned-entry items a x n) (repinned-contents items a n q)

  found-contents : (c : Cache) (o : Option ℕ) → contents (pin_found hasher c o).1 ≡ contents c
  unfolding pin_found
  found-contents c none = refl
  found-contents c (some a) = repinned-contents c.items a (pos 1) c.queue

  found-there : (c : Cache) (o : Option ℕ) → is_some o ≡ is_some (pin_found hasher c o).0
  unfolding pin_found
  found-there c none = refl
  found-there c (some a) = refl

  -- In a valid cache whose capacity is not 0, LookupAndPin returns the value of the key in the
  -- list of entries, or a null pointer where it has none, and leaves that list as it is;
  -- ContainsKey says whether the key has a value there.
  pub contents-lookup_and_pin :
      (c : Cache) (key : ℕ)
      → IsValid hasher c
      → c.capacity ≢ 0
      → ((lookup_and_pin hasher c key).0 ≡ value_of key (contents c))
        × (contents (lookup_and_pin hasher c key).1 ≡ contents c)
        × (contains_key hasher c key ≡ is_some (value_of key (contents c)))
  unfolding lookup_and_pin contains_key
  contents-lookup_and_pin c key v some_room =
      let off : (c.capacity == 0) ≡ false = ground (arith, some_room) in
      let o = find_key c.items key (c.chain (hasher key % c.buckets)) in
      (
        rw (off) (found-value c key o v refl),
        rw (off) (found-contents c o),
        rw (off) (found-there c o ∙ ap is_some (found-value c key o v refl)),
      )
