-- ===== src/Utils/Tests.antt =====
-- The cache at concrete inputs.
use fat_fritz.Common.{
  ℕ, ◌≤◌, ◌+◌, ◌-◌, Bool, true, false, [], ◌∷◌, Option, none, some, ◌≡◌, refl, arith,
}
use fat_fritz.Common.Bools.{is_some}
use fat_fritz.Common.Int.{pos}
use fat_fritz.Utils.Cache.Addresses.{has, remove, last}
use fat_fritz.Utils.Cache.{
  Item, Cache, empty_cache, insert, evict_key, evict_found, evict_item, find_key,
  shrink_to_capacity, shrink_loop, add_item, insert_into_lru, lookup_and_pin, pin_found,
  contains_key, set_capacity, rehash,
}
use fat_fritz.Utils.Cache.Valid.{shrink_to_capacity-size}
use fat_fritz.Utils.Cache.Contents.{contents, take, without_key, contents-insert}
use fat_fritz.Utils.Cache.Reached.{
  Reached, constructed, inserted, looked_up, IsBounded, Reached-IsBounded,
}
use fat_fritz.Utils.Cache.Lookup.{value_of, contents-lookup_and_pin}
use fat_fritz.Utils.Cache.Alive.{StaysPinned, insert-StaysPinned}

abbrev identity : ℕ → ℕ
identity key = key

abbrev one_more : ℕ → ℕ
one_more capacity = capacity + 1

abbrev blank_memory : ℕ → Item
blank_memory _ = record { key = 0; value = 0; pins = pos 0 }

-- A cache for two items that holds the keys 7 and 10, which share a chain, with 7 pinned.
abbrev pair_cache : Cache
pair_cache =
    insert identity (insert identity (empty_cache identity one_more 2 blank_memory) 7 70) 10 100

abbrev pinned_cache : Cache
pinned_cache = (lookup_and_pin identity pair_cache 7).1

pinned-Reached : Reached identity one_more pinned_cache
pinned-Reached =
    looked_up pair_cache 7 (inserted _ 10 100 (inserted _ 7 70 (constructed 2 blank_memory)))

Reached-IsBounded_example : IsBounded identity one_more pinned_cache
Reached-IsBounded_example = Reached-IsBounded identity one_more pinned_cache pinned-Reached

two_entries : contents pinned_cache ≡ (10, 100) ∷ (7, 70) ∷ []
unfolding insert evict_key evict_found evict_item find_key shrink_to_capacity shrink_loop add_item
    insert_into_lru lookup_and_pin pin_found has remove last empty_cache
two_entries = refl

contents-insert_example :
    contents (insert identity pinned_cache 8 80)
    ≡ (8, 80) ∷ take (pinned_cache.capacity - 1) (without_key 8 (contents pinned_cache))
unfolding insert evict_key evict_found evict_item find_key shrink_to_capacity shrink_loop add_item
    insert_into_lru lookup_and_pin pin_found has remove last empty_cache
contents-insert_example =
    contents-insert identity pinned_cache 8 80
      (Reached-IsBounded identity one_more pinned_cache pinned-Reached).valid
      (λ h. ground (arith, h))

contents-lookup_and_pin_example :
    ((lookup_and_pin identity pair_cache 10).0 ≡ value_of 10 (contents pair_cache))
    × (contents (lookup_and_pin identity pair_cache 10).1 ≡ contents pair_cache)
    × (contains_key identity pair_cache 10 ≡ is_some (value_of 10 (contents pair_cache)))
unfolding insert evict_key evict_found evict_item find_key shrink_to_capacity shrink_loop add_item
    insert_into_lru has remove last empty_cache
contents-lookup_and_pin_example =
    contents-lookup_and_pin identity pair_cache 10
      (Reached-IsBounded identity one_more pair_cache
        (inserted _ 10 100 (inserted _ 7 70 (constructed 2 blank_memory)))).valid
      (λ h. ground (arith, h))

shrink_to_capacity-size_example : (shrink_to_capacity identity pinned_cache 1).size ≤ 1
shrink_to_capacity-size_example =
    shrink_to_capacity-size identity pinned_cache 1
      (Reached-IsBounded identity one_more pinned_cache pinned-Reached).valid

-- The key 7 has the oldest item, at address 0: the new key 8 evicts it, and it stays as it is pinned.
insert-StaysPinned_example : StaysPinned pinned_cache (insert identity pinned_cache 8 80) 0
unfolding insert evict_key evict_found evict_item find_key shrink_to_capacity shrink_loop add_item
    insert_into_lru lookup_and_pin pin_found has remove last empty_cache
insert-StaysPinned_example =
    insert-StaysPinned identity 0 pinned_cache 8 80
      (Reached-IsBounded identity one_more pinned_cache pinned-Reached).valid refl refl

-- After a change of the capacity from 2 to 5 the key 7 is lost, as the second item of its chain.
abbrev found_after : Option Cache → ℕ → Option Bool
found_after none key = none
found_after (some c) key = some (contains_key identity c key)

resized_loses_key :
    (found_after (set_capacity identity one_more pair_cache 5) 10 ≡ some true)
    × (found_after (set_capacity identity one_more pair_cache 5) 7 ≡ some false)
unfolding insert evict_key evict_found evict_item find_key shrink_to_capacity shrink_loop add_item
    insert_into_lru contains_key set_capacity rehash has remove last empty_cache
resized_loses_key = (refl, refl)
