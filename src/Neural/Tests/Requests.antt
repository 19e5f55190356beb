-- ===== src/Neural/Tests/Requests.antt =====
-- Requests to a network that answers with numbers.
use fat_fritz.Common.{ℕ, suc, ◌+◌, ◌*◌, if◌then◌else◌, [], ◌∷◌, some, length, inl, ◌≡◌, refl, arith}
use fat_fritz.Common.Int.{pos}
use fat_fritz.Utils.Cache.{
  Item, empty_cache, contains_key, insert, evict_key, evict_found, find_key, shrink_to_capacity,
  shrink_loop, add_item, insert_into_lru, lookup_and_pin, pin_found,
}
use fat_fritz.Utils.Cache.Addresses.{has}
use fat_fritz.Utils.Cache.Valid.{IsValid}
use fat_fritz.Utils.Cache.Unlock.{ValuesDiffer}
use fat_fritz.Utils.Cache.Reached.{constructed, inserted, Reached-IsBounded}
use fat_fritz.Neural.Cache.{
  Network, Computation, get_batch_size, get_cache_misses, add_input_by_hash, add_input,
  pop_cache_hit, compute_blocking, hit, find_move, answer,
}
use fat_fritz.Neural.Cache.Moves.{find_move-answer}
use fat_fritz.Neural.Cache.Batch.{sizes-add_input, pop_cache_hit-add_input_by_hash}

abbrev network : Network ℕ ℕ
network = record {
  q_val = λ inputs sample. sample;
  d_val = λ inputs sample. sample + 1;
  m_val = λ inputs sample. sample + 2;
  p_val = λ inputs sample move. sample * 100 + move;
  zero_val = 0;
}

abbrev identity : ℕ → ℕ
identity key = key

abbrev blank_memory : ℕ → Item
blank_memory _ = record { key = 0; value = 0; pins = pos 0 }

abbrev computation : Computation ℕ ℕ
computation = record {
  cache = empty_cache identity identity 4 blank_memory;
  requests = λ _. record { q = 0; d = 0; m = 0; p = [] };
  fresh = 0;
  parent = [];
  batch = [];
}

find_move-answer_example :
    (find_move network
      (answer network (5 ∷ []) 3 (7 ∷ 9 ∷ [])).p
      7
      (length (answer network (5 ∷ []) 3 (7 ∷ 9 ∷ [])).p)
      1).0
    ≡ network.p_val (5 ∷ []) 3 7
find_move-answer_example =
    find_move-answer network (5 ∷ []) 3 7 1 (7 ∷ 9 ∷ []) (inl refl) (omega arith)

sizes-add_input_example :
    (get_batch_size network identity (add_input network identity computation 6 60 (7 ∷ []))
      ≡ suc (get_batch_size network identity computation))
    × (get_cache_misses network identity (add_input network identity computation 6 60 (7 ∷ [])) ≡ (
        if contains_key identity computation.cache 6
        then get_cache_misses network identity computation
        else suc (get_cache_misses network identity computation)))
sizes-add_input_example = sizes-add_input network identity computation 6 60 (7 ∷ [])

-- A cache that has one request, at the address 0 of its memory.
abbrev filled_computation : Computation ℕ ℕ
filled_computation = record computation { cache = insert identity computation.cache 6 0; fresh = 1 }

filled-IsValid : IsValid identity filled_computation.cache
filled-IsValid =
    (Reached-IsBounded identity identity filled_computation.cache
      (inserted _ 6 0 (constructed 4 blank_memory))).valid

filled-ValuesDiffer : ValuesDiffer filled_computation.cache
unfolding insert evict_key evict_found find_key shrink_to_capacity shrink_loop add_item
    insert_into_lru has empty_cache
filled-ValuesDiffer = record { same_item = λ a b h k e. ground (arith, h, k) }

pop_cache_hit-add_input_by_hash_example :
    pop_cache_hit network identity (add_input_by_hash network identity filled_computation 6).1
    ≡ some filled_computation
unfolding insert evict_key evict_found find_key shrink_to_capacity shrink_loop add_item
    insert_into_lru empty_cache add_input_by_hash hit lookup_and_pin pin_found
pop_cache_hit-add_input_by_hash_example =
    pop_cache_hit-add_input_by_hash network identity filled_computation 6 filled-IsValid
      filled-ValuesDiffer refl

abbrev answered : Computation ℕ ℕ
answered = compute_blocking network identity (add_input network identity computation 6 60 (7 ∷ []))
