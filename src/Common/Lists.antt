-- ===== src/Common/Lists.antt =====
-- Lists measured and indexed by native numbers, under the library's names.
use Prim.Native.Nat.{ℕ, zero, suc, ◌+◌}
use mathlib.Core.Path.{◌≡◌, refl, ap, sym, subst}
use mathlib.Core.Logic.{◌⊎◌, inl, inr}
use mathlib.Core.List.{List, [], ◌∷◌, ◌++◌, map}
use native.Mathlib.Omega.{arith}

module _ {ℓ} {A : Type ℓ} where
  abbrev pub length : List A → ℕ
  length [] = 0
  length (x ∷ xs) = suc (length xs)

  -- The entry at an index, `d` out of range.
  abbrev pub get_or : List A → ℕ → A → A
  get_or [] i d = d
  get_or (x ∷ xs) zero d = x
  get_or (x ∷ xs) (suc i) d = get_or xs i d

  pub length-append : (xs ys : List A) → length (xs ++ ys) ≡ length xs + length ys
  length-append [] ys = omega arith
  length-append (x ∷ xs) ys = omega (arith, length-append xs ys)

-- `x` stands in the list.
abbrev pub Member : {A : Type 0} → A → List A → Type 0
Member x [] = ⊥
Member x (y ∷ ys) = (x ≡ y) ⊎ Member x ys

-- Every entry has the property.
abbrev pub All : {A : Type 0} → (A → Type 0) → List A → Type 0
All P [] = Unit
All P (y ∷ ys) = P y × All P ys

module _ {A : Type 0} where
  pub Member-append_left : (x : A) (xs ys : List A) → Member x xs → Member x (xs ++ ys)
  Member-append_left x [] ys h = absurd h
  Member-append_left x (y ∷ xs) ys (inl e) = inl e
  Member-append_left x (y ∷ xs) ys (inr h) = inr (Member-append_left x xs ys h)

  pub Member-append_right : (x : A) (xs ys : List A) → Member x ys → Member x (xs ++ ys)
  Member-append_right x [] ys h = h
  Member-append_right x (y ∷ xs) ys h = inr (Member-append_right x xs ys h)

  pub Member-append : (x : A) (xs ys : List A) → Member x (xs ++ ys) → Member x xs ⊎ Member x ys
  Member-append x [] ys h = inr h
  Member-append x (y ∷ xs) ys (inl e) = inl (inl e)
  Member-append x (y ∷ xs) ys (inr h) = elim (Member-append x xs ys h) [
    | inl l ↦ inl (inr l)
    | inr r ↦ inr r
  ]

  pub All-append : (P : A → Type 0) (xs ys : List A) → All P xs → All P ys → All P (xs ++ ys)
  All-append P [] ys h k = k
  All-append P (x ∷ xs) ys h k = (h.0, All-append P xs ys h.1 k)

  pub All-Member : (P : A → Type 0) (xs : List A) (x : A) → All P xs → Member x xs → P x
  All-Member P (y ∷ xs) x h (inl e) = subst P (sym e) h.0
  All-Member P (y ∷ xs) x h (inr m) = All-Member P xs x h.1 m
  All-Member P [] x h m = absurd m

  pub All-of_Member : (P : A → Type 0) (xs : List A) → ((x : A) → Member x xs → P x) → All P xs
  All-of_Member P [] h = tt
  All-of_Member P (x ∷ xs) h = (h x (inl refl), All-of_Member P xs (λ y m. h y (inr m)))

module _ {A B : Type 0} where
  pub Member-map : (f : A → B) (x : A) (xs : List A) → Member x xs → Member (f x) (map f xs)
  Member-map f x [] h = absurd h
  Member-map f x (y ∷ xs) (inl e) = inl (ap f e)
  Member-map f x (y ∷ xs) (inr h) = inr (Member-map f x xs h)

  pub Member-map_inv :
      (f : A → B) (b : B) (xs : List A) → Member b (map f xs) → (x : A) × Member x xs × (b ≡ f x)
  Member-map_inv f b [] h = absurd h
  Member-map_inv f b (y ∷ xs) (inl e) = (y, inl refl, e)
  Member-map_inv f b (y ∷ xs) (inr h) = let (x, m, e) = Member-map_inv f b xs h in (x, inr m, e)

  -- The results of `f` at every entry, in order.
  unfoldable pub concat_map : (A → List B) → List A → List B
  concat_map f [] = []
  concat_map f (x ∷ xs) = f x ++ concat_map f xs

  pub Member-concat_map :
      (f : A → List B) (x : A) (b : B) (xs : List A)
      → Member x xs
      → Member b (f x)
      → Member b (concat_map f xs)
  unfolding concat_map
  Member-concat_map f x b [] h m = absurd h
  Member-concat_map f x b (y ∷ xs) (inl e) m =
      Member-append_left b (f y) _ (subst (λ z. Member b (f z)) e m)
  Member-concat_map f x b (y ∷ xs) (inr h) m =
      Member-append_right b (f y) _ (Member-concat_map f x b xs h m)

  pub Member-concat_map_inv :
      (f : A → List B) (b : B) (xs : List A)
      → Member b (concat_map f xs)
      → (x : A) × Member x xs × Member b (f x)
  unfolding concat_map
  Member-concat_map_inv f b [] h = absurd h
  Member-concat_map_inv f b (y ∷ xs) h = elim (Member-append b (f y) (concat_map f xs) h) [
    | inl m ↦ (y, inl refl, m)
    | inr m ↦ let (x, mx, mb) = Member-concat_map_inv f b xs m in (x, inr mx, mb)
  ]
