-- ===== src/Cleansing/Store/Counts.antt =====
-- How many rows have a key, under the statements of the store.
use mathlib.Core.Path.{subst}
use stock_prediction.Base.{
  ℕ, zero, suc, ◌≤◌, ◌≡◌, refl, Bool, true, false, some, List, [], ◌∷◌, map, any, filter_by,
  find_first, insert_by, sort_by, take, length, All, leb, ◌==◌, ==_iff, arith, Bool-cases, inl, inr,
}

abbrev pub count : {A : Type 0} → (A → ℕ) → ℕ → List A → ℕ
count key id xs = length (filter_by (λ x. key x == id) xs)

module _ {A : Type 0} (key : A → ℕ) where
  pub count_new : (id : ℕ) (xs : List A) → any (λ x. key x == id) xs ≡ false → count key id xs ≡ 0
  count_new id [] h = refl
  count_new id (x ∷ xs) h = ground (arith, count_new id xs)

  pub none_of_count :
      (id : ℕ) (xs : List A) → count key id xs ≡ 0 → any (λ x. key x == id) xs ≡ false
  none_of_count id [] h = refl
  none_of_count id (x ∷ xs) h = ground (arith, none_of_count id xs)

  -- A key that is new is there once.
  pub one_more :
      (id : ℕ) (x : A) (xs : List A)
      → count key (key x) xs ≡ 0
      → count key id xs ≤ 1
      → count key id (x ∷ xs) ≤ 1
  one_more id x xs new h = elim (Bool-cases (key x == id)) [
    | inl t ↦ ground (arith, subst (λ i. count key i xs ≡ 0) ((==_iff (key x) id).0 t) new)
    | inr t ↦ ground arith
  ]

  -- Neither a filter, a sort nor a limit gives a key more rows.
  pub count-filter_by :
      (id : ℕ) (p : A → Bool) (xs : List A) → count key id (filter_by p xs) ≤ count key id xs
  count-filter_by id p [] = ground arith
  count-filter_by id p (x ∷ xs) = ground (arith, count-filter_by id p xs)

  count-insert_by :
      (id : ℕ) (by : A → ℕ) (x : A) (xs : List A)
      → count key id (insert_by by x xs) ≡ count key id (x ∷ xs)
  count-insert_by id by x [] = refl
  count-insert_by id by x (y ∷ ys) = ground (arith, count-insert_by id by x ys)

  pub count-sort_by :
      (id : ℕ) (by : A → ℕ) (xs : List A) → count key id (sort_by by xs) ≡ count key id xs
  count-sort_by id by [] = refl
  count-sort_by id by (x ∷ xs) =
      ground (arith, count-insert_by id by x (sort_by by xs), count-sort_by id by xs)

  pub count-take : (id n : ℕ) (xs : List A) → count key id (take n xs) ≤ count key id xs
  count-take id zero xs = ground arith
  count-take id (suc n) [] = ground arith
  count-take id (suc n) (x ∷ xs) = ground (arith, count-take id n xs)

  pub count-map :
      (id : ℕ) (g : A → A) (xs : List A)
      → ((x : A) → key (g x) ≡ key x)
      → count key id (map g xs) ≡ count key id xs
  count-map id g [] h = refl
  count-map id g (x ∷ xs) h = ground (arith, count-map id g xs h, h x)

module _ {A : Type 0} (P : A → Type 0) where
  pub All-where :
      (p : A → Bool) (xs : List A) → All P xs → All (λ x. P x × (p x ≡ true)) (filter_by p xs)
  All-where p [] h = tt
  All-where p (x ∷ xs) (h, hs) = elim (Bool-cases (p x)) [
    | inl t ↦ rw t ((h, t), All-where p xs hs)
    | inr t ↦ rw t (All-where p xs hs)
  ]

  All-insert_by : (by : A → ℕ) (x : A) (xs : List A) → P x → All P xs → All P (insert_by by x xs)
  All-insert_by by x [] h hs = (h, tt)
  All-insert_by by x (y ∷ ys) h (k, ks) = elim (Bool-cases (leb (by x) (by y))) [
    | inl t ↦ rw t (h, (k, ks))
    | inr t ↦ rw t (k, All-insert_by by x ys h ks)
  ]

  pub All-sort_by : (by : A → ℕ) (xs : List A) → All P xs → All P (sort_by by xs)
  All-sort_by by [] h = tt
  All-sort_by by (x ∷ xs) (h, hs) = All-insert_by by x (sort_by by xs) h (All-sort_by by xs hs)

  pub All-take : (n : ℕ) (xs : List A) → All P xs → All P (take n xs)
  All-take zero xs h = tt
  All-take (suc n) [] h = tt
  All-take (suc n) (x ∷ xs) (h, hs) = (h, All-take n xs hs)

  pub found :
      (p : A → Bool) (x : A) (xs : List A)
      → find_first p xs ≡ some x
      → All P xs
      → P x × (p x ≡ true)
  found p x [] e h = absurd (ground arith)
  found p x (y ∷ ys) e (h, hs) = elim (Bool-cases (p y)) [
    | inl t ↦ let q : y ≡ x = ground arith in subst (λ z. P z × (p z ≡ true)) q (h, t)
    | inr t ↦ found p x ys (ground arith) hs
  ]

pub All-imp :
    {A : Type 0} (P Q : A → Type 0) (xs : List A) → ((x : A) → P x → Q x) → All P xs → All Q xs
All-imp P Q [] f h = tt
All-imp P Q (x ∷ xs) f (h, hs) = (f x h, All-imp P Q xs f hs)

pub All-map :
    {A B : Type 0} (P : A → Type 0) (Q : B → Type 0) (g : A → B) (xs : List A)
    → ((x : A) → P x → Q (g x))
    → All P xs
    → All Q (map g xs)
All-map P Q g [] f h = tt
All-map P Q g (x ∷ xs) f (h, hs) = (f x h, All-map P Q g xs f hs)

pub All-both :
    {A : Type 0} (P Q : A → Type 0) (xs : List A) → All P xs → All Q xs → All (λ x. P x × Q x) xs
All-both P Q [] h k = tt
All-both P Q (x ∷ xs) (h, hs) (k, ks) = ((h, k), All-both P Q xs hs ks)

pub others :
    {A : Type 0} (key : A → ℕ) (id : ℕ) (xs : List A)
    → count key id xs ≡ 0
    → All (λ x. (key x == id) ≡ false) xs
others key id [] h = tt
others key id (x ∷ xs) h = (ground arith, others key id xs (ground arith))
