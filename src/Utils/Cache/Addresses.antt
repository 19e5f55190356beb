-- ===== src/Utils/Cache/Addresses.antt =====
-- Lists of addresses, which stand for the linked lists of the cache.
use fat_fritz.Common.{
  ℕ, suc, Bool, true, false, not, ◌&&◌, ◌||◌, ◌==◌, if◌then◌else◌, List, [], ◌∷◌, length, ◌≡◌, refl,
  arith,
}

unfoldable pub has : ℕ → List ℕ → Bool
has a [] = false
has a (x ∷ xs) = a == x || has a xs

-- The list without its first entry that is the address.
unfoldable pub remove : ℕ → List ℕ → List ℕ
remove a [] = []
remove a (x ∷ xs) = let rest = remove a xs in if a == x then xs else x ∷ rest

-- The last entry, `d` for the empty list.
unfoldable pub last : List ℕ → ℕ → ℕ
last [] d = d
last (x ∷ xs) d = last xs x

abbrev pub is_empty : List ℕ → Bool
is_empty [] = true
is_empty (_ ∷ _) = false

-- No address stands in the list twice.
unfoldable pub distinct : List ℕ → Bool
distinct [] = true
distinct (x ∷ xs) = not (has x xs) && distinct xs

pub has-remove :
    (a b : ℕ) (xs : List ℕ) → distinct xs ≡ true → has b (remove a xs) ≡ (not (b == a) && has b xs)
unfolding has remove distinct
has-remove a b [] d = ground arith
has-remove a b (x ∷ xs) d =
    let rest = has-remove a b xs (ground (arith, d)) in ground (arith, d, rest)

pub distinct-remove : (a : ℕ) (xs : List ℕ) → distinct xs ≡ true → distinct (remove a xs) ≡ true
unfolding has remove distinct
distinct-remove a [] d = refl
distinct-remove a (x ∷ xs) d = ground (arith, d, distinct-remove a xs, has-remove a x xs)

pub length-remove : (a : ℕ) (xs : List ℕ) → has a xs ≡ true → suc (length (remove a xs)) ≡ length xs
unfolding has remove
length-remove a [] h = absurd (ground (arith, h))
length-remove a (x ∷ xs) h = let rest = length-remove a xs in ground (arith, h, rest)

has-last_of : (d : ℕ) (xs : List ℕ) → (last xs d == d || has (last xs d) xs) ≡ true
unfolding has last
has-last_of d [] = ground arith
has-last_of d (x ∷ xs) = ground (arith, has-last_of x xs)

pub has-last : (d : ℕ) (xs : List ℕ) → is_empty xs ≡ false → has (last xs d) xs ≡ true
unfolding has last
has-last d [] h = absurd (ground (arith, h))
has-last d (x ∷ xs) h = has-last_of x xs

pub has-empty : (a : ℕ) (xs : List ℕ) → length xs ≡ 0 → has a xs ≡ false
unfolding has
has-empty a [] h = refl
has-empty a (x ∷ xs) h = absurd (omega (arith, h))
