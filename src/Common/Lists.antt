-- ===== src/Common/Lists.antt =====
-- Lists of table rows over the native numbers: selection, update, order, and their lemmas.
use Prim.Native.Nat.{ℕ, zero, suc, ◌+◌, ◌-◌, ◌≤◌, min}
use mathlib.Core.Path.{◌≡◌, refl, sym, ap, subst, ◌∙◌}
use mathlib.Core.Bool.{Bool, true, false, ◌&&◌, ◌||◌}
use mathlib.Core.Option.{Option, none, some}
use mathlib.Core.List.{List, [], ◌∷◌, ◌++◌, map}
use native.Mathlib.Omega.{arith}
use mathlib.Core.Logic.{inl, inr}
use family_ai_platform.Common.Tests.{if◌then◌else◌, Bool-cases}

module _ {ℓ} {A : Type ℓ} where
  abbrev pub length : List A → ℕ
  length [] = 0
  length (x ∷ xs) = suc (length xs)

  abbrev pub take : ℕ → List A → List A
  take zero xs = []
  take (suc n) [] = []
  take (suc n) (x ∷ xs) = x ∷ take n xs

  abbrev pub drop : ℕ → List A → List A
  drop zero xs = xs
  drop (suc n) [] = []
  drop (suc n) (x ∷ xs) = drop n xs

  -- The rows that a `WHERE` clause keeps.
  abbrev pub select : (A → Bool) → List A → List A
  select p [] = []
  select p (x ∷ xs) = if p x then x ∷ select p xs else select p xs

  -- The first row that a `WHERE` clause keeps: `.get()`.
  abbrev pub first : (A → Bool) → List A → Option A
  first p [] = none
  first p (x ∷ xs) = if p x then some x else first p xs

  abbrev pub exists_in : (A → Bool) → List A → Bool
  exists_in p [] = false
  exists_in p (x ∷ xs) = p x || exists_in p xs

  abbrev pub all_in : (A → Bool) → List A → Bool
  all_in p [] = true
  all_in p (x ∷ xs) = p x && all_in p xs

  -- `UPDATE … SET … WHERE`.
  abbrev pub update : (A → Bool) → (A → A) → List A → List A
  update p f [] = []
  update p f (x ∷ xs) = (if p x then f x else x) ∷ update p f xs

  -- The number of rows that an `UPDATE` with this `WHERE` changes: `.changes`.
  abbrev pub changes : (A → Bool) → List A → ℕ
  changes p [] = 0
  changes p (x ∷ xs) = if p x then suc (changes p xs) else changes p xs

  abbrev pub last_of : A → List A → A
  last_of d [] = d
  last_of d (x ∷ xs) = last_of x xs

  pub length-append : (xs ys : List A) → length (xs ++ ys) ≡ length xs + length ys
  length-append [] ys = omega arith
  length-append (x ∷ xs) ys = omega (arith, length-append xs ys)

  pub select-append :
      (p : A → Bool) (xs ys : List A) → select p (xs ++ ys) ≡ select p xs ++ select p ys
  select-append p [] ys = refl
  select-append p (x ∷ xs) ys = ground (arith, select-append p xs ys)

  pub exists_in-append :
      (p : A → Bool) (xs ys : List A) → exists_in p (xs ++ ys) ≡ (exists_in p xs || exists_in p ys)
  exists_in-append p [] ys = refl
  exists_in-append p (x ∷ xs) ys = ground (arith, exists_in-append p xs ys)

  pub exists_in-take :
      (p : A → Bool) (n : ℕ) (xs : List A)
      → exists_in p xs ≡ false
      → exists_in p (take n xs) ≡ false
  exists_in-take p zero xs h = refl
  exists_in-take p (suc n) [] h = refl
  exists_in-take p (suc n) (x ∷ xs) h = ground (arith, exists_in-take p n xs)

  pub first_holds : (p : A → Bool) (xs : List A) (a : A) → first p xs ≡ some a → p a ≡ true
  first_holds p [] a h = cc
  first_holds p (x ∷ xs) a h = ground (arith, first_holds p xs a)

  pub map-update {κ} :
      {B : Type κ} (g : A → B) (p : A → Bool) (f : A → A)
      → ((a : A) → g (f a) ≡ g a)
      → (xs : List A) → map g (update p f xs) ≡ map g xs
  map-update g p f same [] = refl
  map-update g p f same (x ∷ xs) = ground (arith, same x, map-update g p f same xs)

  -- An `UPDATE` of some rows that the test chooses: the first that it chooses is still found.
  pub first-update :
      (p q : A → Bool) (f : A → A)
      → ((a : A) → p (f a) ≡ p a)
      → (xs : List A) (a : A) → first p xs ≡ some a
      → first p (update (λ r. p r && q r) f xs) ≡ some (if q a then f a else a)
  first-update p q f same [] a h = cc
  first-update p q f same (x ∷ xs) a h = ground (arith, same x, first-update p q f same xs a)

  -- An `UPDATE` of every row that a test chooses leaves none that it chooses.
  pub exists_in-update_none :
      (q p : A → Bool) (f : A → A)
      → ((a : A) → q a ≡ true → p a ≡ true)
      → ((a : A) → p a ≡ true → q (f a) ≡ false)
      → (xs : List A) → exists_in q (update p f xs) ≡ false
  exists_in-update_none q p f covers clears [] = refl
  exists_in-update_none q p f covers clears (x ∷ xs) =
      ground (arith, covers x, clears x, exists_in-update_none q p f covers clears xs)

  pub select-update_none :
      (q p : A → Bool) (f : A → A)
      → ((a : A) → q a ≡ true → p a ≡ true)
      → ((a : A) → p a ≡ true → q (f a) ≡ false)
      → (xs : List A) → select q (update p f xs) ≡ []
  select-update_none q p f covers clears [] = refl
  select-update_none q p f covers clears (x ∷ xs) =
      ground (arith, covers x, clears x, select-update_none q p f covers clears xs)

  -- A test that an `UPDATE` does not change.
  pub exists_in-update :
      (q p : A → Bool) (f : A → A)
      → ((a : A) → q (f a) ≡ q a)
      → (xs : List A) → exists_in q (update p f xs) ≡ exists_in q xs
  exists_in-update q p f same [] = refl
  exists_in-update q p f same (x ∷ xs) = ground (arith, same x, exists_in-update q p f same xs)

  pub exists_in-ext :
      (p q : A → Bool) → ((a : A) → p a ≡ q a) → (xs : List A) → exists_in p xs ≡ exists_in q xs
  exists_in-ext p q same [] = refl
  exists_in-ext p q same (x ∷ xs) = ground (arith, same x, exists_in-ext p q same xs)

  pub all_in-take :
      (p : A → Bool) (n : ℕ) (xs : List A) → all_in p xs ≡ true → all_in p (take n xs) ≡ true
  all_in-take p zero xs h = refl
  all_in-take p (suc n) [] h = refl
  all_in-take p (suc n) (x ∷ xs) h = ground (arith, all_in-take p n xs)

  pub all_in-drop :
      (p : A → Bool) (n : ℕ) (xs : List A) → all_in p xs ≡ true → all_in p (drop n xs) ≡ true
  all_in-drop p zero xs h = h
  all_in-drop p (suc n) [] h = refl
  all_in-drop p (suc n) (x ∷ xs) h = ground (arith, all_in-drop p n xs)

  pub all_in-select : (p : A → Bool) (xs : List A) → all_in p (select p xs) ≡ true
  all_in-select p [] = refl
  all_in-select p (x ∷ xs) = ground (arith, all_in-select p xs)

  pub map_cong {κ} :
      {B : Type κ} (f g : A → B) → ((a : A) → f a ≡ g a) → (xs : List A) → map f xs ≡ map g xs
  map_cong f g same [] = refl
  map_cong f g same (x ∷ xs) =
      ap (λ y. y ∷ map f xs) (same x) ∙ ap (λ ys. g x ∷ ys) (map_cong f g same xs)

  pub map_same : (f : A → A) → ((a : A) → f a ≡ a) → (xs : List A) → map f xs ≡ xs
  map_same f same [] = refl
  map_same f same (x ∷ xs) =
      ap (λ y. y ∷ map f xs) (same x) ∙ ap (λ ys. x ∷ ys) (map_same f same xs)

  pub first-none : (p : A → Bool) (xs : List A) → exists_in p xs ≡ false → first p xs ≡ none
  first-none p [] h = refl
  first-none p (x ∷ xs) h = ground (arith, first-none p xs)

  pub first_fails :
      (p q : A → Bool) (xs : List A) (a : A)
      → exists_in (λ r. p r && q r) xs ≡ false
      → first p xs ≡ some a
      → q a ≡ false
  first_fails p q [] a n h = absurd (ground arith)
  first_fails p q (x ∷ xs) a n h = ground (arith, first_fails p q xs a)

  pub first-append :
      (p : A → Bool) (xs ys : List A) (a : A) → first p xs ≡ some a → first p (xs ++ ys) ≡ some a
  first-append p [] ys a h = cc
  first-append p (x ∷ xs) ys a h = ground (arith, first-append p xs ys a)

  -- An update that spares the row that is found.
  pub first-update_spared :
      (p q : A → Bool) (f : A → A)
      → ((a : A) → p (f a) ≡ p a)
      → (xs : List A) (a : A) → first p xs ≡ some a
      → q a ≡ false
      → first p (update q f xs) ≡ some a
  first-update_spared p q f same [] a h n = cc
  first-update_spared p q f same (x ∷ xs) a h n =
      ground (arith, same x, first-update_spared p q f same xs a)

  -- An `UPDATE` leaves a look-up alone that finds none of the rows it chooses.
  pub first-update_apart :
      (p q : A → Bool) (f : A → A)
      → ((a : A) → p (f a) ≡ p a)
      → ((a : A) → p a ≡ true → q a ≡ false)
      → (xs : List A) → first p (update q f xs) ≡ first p xs
  first-update_apart p q f same apart [] = refl
  first-update_apart p q f same apart (x ∷ xs) =
      ground (arith, same x, apart x, first-update_apart p q f same apart xs)

  pub first-append_none :
      (p : A → Bool) (xs ys : List A) → first p xs ≡ none → first p (xs ++ ys) ≡ first p ys
  first-append_none p [] ys h = refl
  first-append_none p (x ∷ xs) ys h = ground (arith, first-append_none p xs ys)

  pub take-all : (n : ℕ) (xs : List A) → length xs ≤ n → take n xs ≡ xs
  take-all zero [] h = refl
  take-all zero (x ∷ xs) h = absurd (omega arith)
  take-all (suc n) [] h = refl
  take-all (suc n) (x ∷ xs) h = ap (λ t. x ∷ t) (take-all n xs (omega arith))

  pub take-take : (n : ℕ) (xs : List A) → take n (take (suc n) xs) ≡ take n xs
  take-take zero xs = refl
  take-take (suc n) [] = refl
  take-take (suc n) (x ∷ xs) = ap (λ t. x ∷ t) (take-take n xs)

  pub length-take : (n : ℕ) (xs : List A) → length (take n xs) ≡ min n (length xs)
  length-take zero xs = omega arith
  length-take (suc n) [] = omega arith
  length-take (suc n) (x ∷ xs) = omega (arith, length-take n xs)

  pub length-drop : (n : ℕ) (xs : List A) → length (drop n xs) ≡ length xs - n
  length-drop zero xs = omega arith
  length-drop (suc n) [] = omega arith
  length-drop (suc n) (x ∷ xs) = omega (arith, length-drop n xs)

  pub drop-nil : (n : ℕ) → drop n [] ≡ []
  drop-nil zero = refl
  drop-nil (suc n) = refl

  pub drop-drop : (m n : ℕ) (xs : List A) → drop m (drop n xs) ≡ drop (n + m) xs
  drop-drop m zero xs = ap (λ k. drop k xs) (omega arith)
  drop-drop m (suc n) [] = drop-nil m ∙ sym (drop-nil (suc n + m))
  drop-drop m (suc n) (x ∷ xs) =
      drop-drop m n xs
      ∙ ap (λ k. drop k (x ∷ xs)) (let e : suc (n + m) ≡ suc n + m = omega arith in e)

  pub take-append-drop : (n : ℕ) (xs : List A) → take n xs ++ drop n xs ≡ xs
  take-append-drop zero xs = refl
  take-append-drop (suc n) [] = refl
  take-append-drop (suc n) (x ∷ xs) = ap (λ t. x ∷ t) (take-append-drop n xs)

module _ {ℓ κ μ} {A : Type ℓ} {B : Type κ} {C : Type μ} where
  pub map-map : (g : B → C) (f : A → B) (xs : List A) → map g (map f xs) ≡ map (λ x. g (f x)) xs
  map-map g f [] = refl
  map-map g f (x ∷ xs) = ap (λ ys. g (f x) ∷ ys) (map-map g f xs)

module _ {ℓ κ} {A : Type ℓ} {B : Type κ} where
  pub exists_in-map :
      (p : B → Bool) (f : A → B) (xs : List A)
      → exists_in p (map f xs) ≡ exists_in (λ x. p (f x)) xs
  exists_in-map p f [] = refl
  exists_in-map p f (x ∷ xs) = ap (λ b. p (f x) || b) (exists_in-map p f xs)

module _ {ℓ κ} {A : Type ℓ} (P : A → Type κ) where
  abbrev pub All : List A → Type κ
  All [] = Unit
  All (x ∷ xs) = P x × All xs

  pub All-append : (xs ys : List A) → All xs → All ys → All (xs ++ ys)
  All-append [] ys h k = k
  All-append (x ∷ xs) ys (p, h) k = (p, All-append xs ys h k)

  pub All-first : (q : A → Bool) (xs : List A) (a : A) → All xs → first q xs ≡ some a → P a
  All-first q [] a h e = absurd (ground arith)
  All-first q (x ∷ xs) a (p, h) e = elim (Bool-cases (q x)) [
    | inl t ↦ subst P (ground arith) p
    | inr t ↦ All-first q xs a h (ground arith)
  ]

  pub All-select : (q : A → Bool) (xs : List A) → All xs → All (select q xs)
  All-select q [] h = tt
  All-select q (x ∷ xs) (p, h) = ground (arith, All-select q xs h)

  pub All-take : (n : ℕ) (xs : List A) → All xs → All (take n xs)
  All-take zero xs h = tt
  All-take (suc n) [] h = tt
  All-take (suc n) (x ∷ xs) (p, h) = (p, All-take n xs h)

  pub All-update :
      (q : A → Bool) (f : A → A)
      → ((a : A) → P a → q a ≡ true → P (f a))
      → (xs : List A) → All xs
      → All (update q f xs)
  All-update q f step [] h = tt
  All-update q f step (x ∷ xs) (p, h) = (ground (arith, step x p), All-update q f step xs h)

-- Insertion by a Boolean order, and the stable sort of `ORDER BY`.
module _ {ℓ} {A : Type ℓ} (le : A → A → Bool) where
  abbrev pub insert_by : A → List A → List A
  insert_by a [] = a ∷ []
  insert_by a (x ∷ xs) = if le a x then a ∷ x ∷ xs else x ∷ insert_by a xs

  abbrev pub order_by : List A → List A
  order_by [] = []
  order_by (x ∷ xs) = insert_by x (order_by xs)

  exists_in-insert_by :
      (p : A → Bool) (a : A) (xs : List A) → exists_in p (insert_by a xs) ≡ (p a || exists_in p xs)
  exists_in-insert_by p a [] = refl
  exists_in-insert_by p a (x ∷ xs) = ground (arith, exists_in-insert_by p a xs)

  pub exists_in-order_by : (p : A → Bool) (xs : List A) → exists_in p (order_by xs) ≡ exists_in p xs
  exists_in-order_by p [] = refl
  exists_in-order_by p (x ∷ xs) =
      exists_in-insert_by p x (order_by xs) ∙ ap (λ b. p x || b) (exists_in-order_by p xs)
