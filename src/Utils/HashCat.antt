-- ===== src/Utils/HashCat.antt =====
-- The hashes of src/utils/hashcat.h, in 64-bit words that wrap.
use fat_fritz.Common.{ℕ, ◌+◌, ◌*◌, ◌%◌, ◌^◌, bit_xor, List, [], ◌∷◌}
use fat_fritz.Bits.{shl64, shr64}

-- Hash(val).
unfoldable pub hash : ℕ → ℕ
hash val =
    (0xfad0d7f2fbb059f1 * ((val + 0xbaad41cdcb839961) % 2 ^ 64)
      + 0x7acec0050bf82f43 * ((shr64 val 31 + 0xd571b3a92b1b2755) % 2 ^ 64))
    % 2 ^ 64

-- HashCat(hash, x).
unfoldable pub hash_cat : ℕ → ℕ → ℕ
hash_cat h x = bit_xor h ((0x299799adf0d95def + hash x + shl64 h 6 + shr64 h 2) % 2 ^ 64)

-- The loop of HashCat(args), from the hash so far.
unfoldable pub hash_cat_from : ℕ → List ℕ → ℕ
hash_cat_from h [] = h
hash_cat_from h (x ∷ xs) = hash_cat_from (hash_cat h x) xs

-- HashCat(args).
unfoldable pub hash_cat_all : List ℕ → ℕ
hash_cat_all args = hash_cat_from 0 args
