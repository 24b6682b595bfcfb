-- ===== src/Sql/Laws.antt =====
-- Laws of the table operations.
use clt_rs.Prelude.{
  ◌+◌, ◌≤◌, ◌≡◌, refl, inl, inr, Bool, true, false, ◌&&◌, ◌||◌, not, none, some, List, [], ◌∷◌,
  ◌++◌, arith, ltb, Bool-cases,
}
use clt_rs.Sql.{any, count, find, delete, update, select}

module _ {ℓ} {A : Type ℓ} where
  pub any-append : (p : A → Bool) (xs ys : List A) → any p (xs ++ ys) ≡ (any p xs || any p ys)
  unfolding any
  any-append p [] ys = refl
  any-append p (x ∷ xs) ys = ground (arith, any-append p xs ys)

  pub any-delete :
      (q p : A → Bool) (xs : List A) → any q (delete p xs) ≡ any (λ x. q x && not (p x)) xs
  unfolding any delete
  any-delete q p [] = refl
  any-delete q p (x ∷ xs) = ground (arith, any-delete q p xs)

  pub any_congr : (p q : A → Bool) (xs : List A) → ((x : A) → p x ≡ q x) → any p xs ≡ any q xs
  unfolding any
  any_congr p q [] h = refl
  any_congr p q (x ∷ xs) h = ground (arith, h x, any_congr p q xs h)

  pub any_mono :
      (p q : A → Bool) (xs : List A)
      → ((x : A) → p x ≡ true → q x ≡ true)
      → any p xs ≡ true
      → any q xs ≡ true
  unfolding any
  any_mono p q [] h e = e
  any_mono p q (x ∷ xs) h e = ground (arith, h x, any_mono p q xs h)

  pub count-append : (p : A → Bool) (xs ys : List A) → count p (xs ++ ys) ≡ count p xs + count p ys
  unfolding count
  count-append p [] ys = omega arith
  count-append p (x ∷ xs) ys = ground (arith, count-append p xs ys)

  -- A statement changes a row exactly when there is one to change.
  pub count_pos : (p : A → Bool) (xs : List A) → ltb 0 (count p xs) ≡ any p xs
  unfolding any count
  count_pos p [] = refl
  count_pos p (x ∷ xs) = ground (arith, count_pos p xs)

  pub count-eq-zero : (p : A → Bool) (xs : List A) → any p xs ≡ false → count p xs ≡ 0
  count-eq-zero p xs h = ground (arith, count_pos p xs)

  pub count_mono :
      (p q : A → Bool) (xs : List A) → ((x : A) → p x ≡ true → q x ≡ true) → count p xs ≤ count q xs
  unfolding count
  count_mono p q [] h = omega arith
  count_mono p q (x ∷ xs) h = ground (arith, h x, count_mono p q xs h)

  pub count-delete-le : (q p : A → Bool) (xs : List A) → count q (delete p xs) ≤ count q xs
  unfolding count delete
  count-delete-le q p [] = omega arith
  count-delete-le q p (x ∷ xs) = ground (arith, count-delete-le q p xs)

  -- An update that makes no new row of `q` adds none.
  pub count-update-le :
      (q p : A → Bool) (f : A → A) (xs : List A)
      → ((x : A) → p x ≡ true → q (f x) ≡ true → q x ≡ true)
      → count q (update p f xs) ≤ count q xs
  unfolding count update
  count-update-le q p f [] h = omega arith
  count-update-le q p f (x ∷ xs) h = ground (arith, h x, count-update-le q p f xs h)

  pub count-update :
      (q p : A → Bool) (f : A → A) (xs : List A)
      → ((x : A) → p x ≡ true → q (f x) ≡ q x)
      → count q (update p f xs) ≡ count q xs
  unfolding count update
  count-update q p f [] h = refl
  count-update q p f (x ∷ xs) h = ground (arith, h x, count-update q p f xs h)

  pub any-update :
      (q p : A → Bool) (f : A → A) (xs : List A)
      → ((x : A) → p x ≡ true → q (f x) ≡ q x)
      → any q (update p f xs) ≡ any q xs
  unfolding any update
  any-update q p f [] h = refl
  any-update q p f (x ∷ xs) h = ground (arith, h x, any-update q p f xs h)

  pub find-none : (p : A → Bool) (xs : List A) → any p xs ≡ false → find p xs ≡ none
  unfolding any find
  find-none p [] h = refl
  find-none p (x ∷ xs) h = ground (arith, find-none p xs)

  pub find-append :
      (p : A → Bool) (xs ys : List A) → any p xs ≡ false → find p (xs ++ ys) ≡ find p ys
  unfolding any find
  find-append p [] ys h = refl
  find-append p (x ∷ xs) ys h = ground (arith, find-append p xs ys)

  pub find_holds : (p : A → Bool) (xs : List A) {x : A} → find p xs ≡ some x → p x ≡ true
  unfolding find
  find_holds p [] {x} h = ground arith
  find_holds p (y ∷ xs) {x} h = ground (arith, find_holds p xs {x = x})

  pub any_of_find :
      (q p : A → Bool) (xs : List A) {x : A} → find p xs ≡ some x → q x ≡ true → any q xs ≡ true
  unfolding any find
  any_of_find q p [] {x} h e = ground arith
  any_of_find q p (y ∷ xs) {x} h e = ground (arith, any_of_find q p xs {x = x})

  pub select-append :
      (p : A → Bool) (xs ys : List A) → select p (xs ++ ys) ≡ select p xs ++ select p ys
  unfolding select
  select-append p [] ys = refl
  select-append p (x ∷ xs) ys = ground (arith, select-append p xs ys)

  -- What a delete does not match stays.
  pub select-delete :
      (q p : A → Bool) (xs : List A)
      → ((x : A) → q x ≡ true → p x ≡ false)
      → select q (delete p xs) ≡ select q xs
  unfolding select delete
  select-delete q p [] h = refl
  select-delete q p (x ∷ xs) h = ground (arith, h x, select-delete q p xs h)

  pub select-update :
      (q p : A → Bool) (f : A → A) (xs : List A)
      → ((x : A) → p x ≡ true → (q x ≡ false) × (q (f x) ≡ false))
      → select q (update p f xs) ≡ select q xs
  unfolding select update
  select-update q p f [] h = refl
  select-update q p f (x ∷ xs) h = ground (arith, h x, select-update q p f xs h)

  pub select-nil : (p : A → Bool) (xs : List A) → any p xs ≡ false → select p xs ≡ []
  unfolding any select
  select-nil p [] h = refl
  select-nil p (x ∷ xs) h = ground (arith, select-nil p xs)

  -- Nothing matches, nothing changes.
  pub delete-none : (p : A → Bool) (xs : List A) → any p xs ≡ false → delete p xs ≡ xs
  unfolding any delete
  delete-none p [] h = refl
  delete-none p (x ∷ xs) h = ground (arith, delete-none p xs)

  pub update-none : (p : A → Bool) (f : A → A) (xs : List A) → any p xs ≡ false → update p f xs ≡ xs
  unfolding any update
  update-none p f [] h = refl
  update-none p f (x ∷ xs) h = ground (arith, update-none p f xs)

  -- A row that is new under a unique key keeps the key unique.
  pub count-append_one :
      (p : A → Bool) (x : A) (xs : List A)
      → (p x ≡ true → any p xs ≡ false)
      → count p xs ≤ 1
      → count p (xs ++ x ∷ []) ≤ 1
  unfolding count
  count-append_one p x xs h u = elim (Bool-cases (p x)) [
    | inl e ↦ ground (arith, count-append p xs (x ∷ []), count-eq-zero p xs (h e))
    | inr e ↦ ground (arith, count-append p xs (x ∷ []))
  ]

module _ {ℓ} {A : Type ℓ} where
  -- A row that an update makes.
  pub any-update_made :
      (q p : A → Bool) (f : A → A) (xs : List A)
      → ((x : A) → p x ≡ true → q (f x) ≡ true)
      → any p xs ≡ true
      → any q (update p f xs) ≡ true
  unfolding any update
  any-update_made q p f [] h e = e
  any-update_made q p f (x ∷ xs) h e = ground (arith, h x, any-update_made q p f xs h)

  any_of_part :
      (p h : A → Bool) (xs : List A)
      → ((x : A) → p x ≡ true → h x ≡ true)
      → any h xs ≡ false
      → any p xs ≡ false
  any_of_part p h xs s e = ground (arith, any_mono p h xs s)

  -- Under a unique key the row of the key is of one kind only.
  pub unique_kind :
      (h p q : A → Bool) (xs : List A)
      → ((x : A) → p x ≡ true → h x ≡ true)
      → ((x : A) → q x ≡ true → h x ≡ true)
      → ((x : A) → p x ≡ true → q x ≡ false)
      → count h xs ≤ 1
      → any p xs ≡ true
      → any q xs ≡ false
  unfolding any count
  unique_kind h p q [] hp hq d u e = refl
  unique_kind h p q (x ∷ xs) hp hq d u e = ground (
    arith,
    hp x,
    hq x,
    d x,
    unique_kind h p q xs hp hq d,
    count_pos h xs,
    any_of_part p h xs hp,
    any_of_part q h xs hq,
  )

  -- Under a unique key the first row of the key is the row at hand.
  pub find_unique :
      (h p : A → Bool) (xs : List A)
      → ((x : A) → p x ≡ true → h x ≡ true)
      → count h xs ≤ 1
      → any p xs ≡ true
      → (x : A) × (find h xs ≡ some x) × (p x ≡ true)
  unfolding any count find
  find_unique h p [] hp u e = absurd (ground arith)
  find_unique h p (x ∷ xs) hp u e = elim (Bool-cases (h x)) [
    | inl k ↦ (x, rw k refl, ground (arith, any_of_part p h xs hp, count_pos h xs))
    | inr k ↦
        let (y, f, g) = find_unique h p xs hp (ground arith) (ground (arith, hp x)) in
        (y, rw k f, g)
  ]

module _ {ℓ} {A : Type ℓ} where
  -- Under a unique key an update changes no row but the first of the key.
  pub any-update_found :
      (q p e : A → Bool) (f : A → A) (xs : List A) {c : A}
      → ((x : A) → e x ≡ true → p x ≡ true)
      → count p xs ≤ 1
      → find p xs ≡ some c
      → q (f c) ≡ false
      → any q xs ≡ false
      → any q (update e f xs) ≡ false
  unfolding any count find update
  any-update_found q p e f [] s u k m h = refl
  any-update_found q p e f (x ∷ xs) {c} s u k m h = elim (Bool-cases (p x)) [
    | inl b ↦ ground (arith, s x, any_of_part e p xs s, count_pos p xs, update-none e f xs)
    | inr b ↦ ground (arith, s x, any-update_found q p e f xs {c = c} s)
  ]
