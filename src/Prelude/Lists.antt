-- ===== src/Prelude/Lists.antt =====
-- Lists over the native numbers.
use Prim.Native.Nat.{ℕ, zero, suc, ◌+◌, ◌<◌}
use mathlib.Core.Path.{◌≡◌, refl, ap, ◌∙◌}
use mathlib.Core.Bool.{Bool, true, false}
use mathlib.Core.Logic.{inl, inr}
use mathlib.Core.Option
use mathlib.Core.Option.{Option, none, some}
use theme_park_nftengine.Prelude.Tests.{if◌then◌else◌, Bool-cases}
use mathlib.Core.List.{List, [], ◌∷◌, ◌++◌}
use native.Mathlib.Omega.{arith}

module _ {ℓ} {A : Type ℓ} where
  abbrev pub length : List A → ℕ
  length [] = 0
  length (x ∷ xs) = suc (length xs)

  pub length-append : (xs ys : List A) → length (xs ++ ys) ≡ length xs + length ys
  length-append [] ys = omega arith
  length-append (x ∷ xs) ys = omega (arith, length-append xs ys)

-- The rows of a table: the first that passes a test, an update of those that pass, and so on.
module _ {ℓ} {A : Type ℓ} where
  unfoldable pub find_by : (A → Bool) → List A → Option A
  find_by p [] = none
  find_by p (x ∷ xs) = if p x then some x else find_by p xs

  unfoldable pub update_where : (A → Bool) → (A → A) → List A → List A
  update_where p f [] = []
  update_where p f (x ∷ xs) = (if p x then f x else x) ∷ update_where p f xs

  unfoldable pub count_where : (A → Bool) → List A → ℕ
  count_where p [] = 0
  count_where p (x ∷ xs) = (if p x then 1 else 0) + count_where p xs

  unfoldable pub delete_where : (A → Bool) → List A → List A
  delete_where p [] = []
  delete_where p (x ∷ xs) = let rest = delete_where p xs in if p x then rest else x ∷ rest

  unfoldable pub take : ℕ → List A → List A
  take zero xs = []
  take (suc n) [] = []
  take (suc n) (x ∷ xs) = x ∷ take n xs

  pub find_by-update_where :
      (p : A → Bool) (f : A → A) (xs : List A)
      → ((x : A) → p (f x) ≡ p x)
      → find_by p (update_where p f xs) ≡ Option.map f (find_by p xs)
  unfolding find_by update_where
  find_by-update_where p f [] h = refl
  find_by-update_where p f (x ∷ xs) h = ground (arith, h x, find_by-update_where p f xs h)

  -- No row passes where none is found.
  pub count_where-eq_zero :
      (p : A → Bool) (xs : List A) → find_by p xs ≡ none → count_where p xs ≡ 0
  unfolding find_by count_where
  count_where-eq_zero p [] h = refl
  count_where-eq_zero p (x ∷ xs) h = ground (arith, count_where-eq_zero p xs)

  pub count_where-pos :
      (p : A → Bool) (xs : List A) (a : A) → find_by p xs ≡ some a → 0 < count_where p xs
  unfolding find_by count_where
  count_where-pos p [] a h = cc
  count_where-pos p (x ∷ xs) a h = ground (arith, count_where-pos p xs a)

  pub find_by-passes : (p : A → Bool) (xs : List A) (a : A) → find_by p xs ≡ some a → p a ≡ true
  unfolding find_by
  find_by-passes p [] a h = cc
  find_by-passes p (x ∷ xs) a h = ground (arith, find_by-passes p xs a)

  pub find_by-append :
      (p : A → Bool) (xs : List A) (a : A)
      → find_by p xs ≡ none
      → p a ≡ true
      → find_by p (xs ++ a ∷ []) ≡ some a
  unfolding find_by
  find_by-append p [] a h e = ground arith
  find_by-append p (x ∷ xs) a h e = ground (arith, find_by-append p xs a)

  -- A row that the update passes over is still the first of its name.
  pub find_by-update_other :
      (p q : A → Bool) (f : A → A) (xs : List A) (a : A)
      → ((x : A) → p (f x) ≡ p x)
      → find_by p xs ≡ some a
      → (b : A) × (find_by p (update_where q f xs) ≡ some b)
  unfolding find_by update_where
  find_by-update_other p q f [] a h e = absurd (cc e)
  find_by-update_other p q f (x ∷ xs) a h e = elim (Bool-cases (p x)) [
    | inl hit ↦ elim (Bool-cases (q x)) [
      | inl changed ↦ (f x, rw (changed, h x, hit) refl)
      | inr same ↦ (x, rw (same, hit) refl)
    ]
    | inr miss ↦
        let (b, found) = find_by-update_other p q f xs a h (ground arith) in
        elim (Bool-cases (q x)) [
          | inl changed ↦ (b, rw (changed, h x, miss) found)
          | inr same ↦ (b, rw (same, miss) found)
        ]
  ]

  -- An update that leaves what a row is named by, and its `g`, leaves a first row with that `g`.
  pub find_by-update_kept {ℓ'} :
      {B : Type ℓ'} (p q : A → Bool) (f : A → A) (g : A → B) (xs : List A) (a : A)
      → ((x : A) → p (f x) ≡ p x)
      → ((x : A) → g (f x) ≡ g x)
      → find_by p xs ≡ some a
      → (b : A) × (find_by p (update_where q f xs) ≡ some b) × (g b ≡ g a)
  unfolding find_by update_where
  find_by-update_kept p q f g [] a h k e = absurd (cc e)
  find_by-update_kept p q f g (x ∷ xs) a h k e = elim (Bool-cases (p x)) [
    | inl hit ↦ elim (Bool-cases (q x)) [
      | inl changed ↦ (f x, rw (changed, h x, hit) refl, k x ∙ ap g (ground arith))
      | inr same ↦ (x, rw (same, hit) refl, ap g (ground arith))
    ]
    | inr miss ↦
        let (b, found, kept) = find_by-update_kept p q f g xs a h k (ground arith) in
        elim (Bool-cases (q x)) [
          | inl changed ↦ (b, rw (changed, h x, miss) found, kept)
          | inr same ↦ (b, rw (same, miss) found, kept)
        ]
  ]

  -- Rows under another name are deleted.
  pub find_by-delete_other :
      (p q : A → Bool) (xs : List A)
      → ((x : A) → p x ≡ true → q x ≡ false)
      → find_by p (delete_where q xs) ≡ find_by p xs
  unfolding find_by delete_where
  find_by-delete_other p q [] h = refl
  find_by-delete_other p q (x ∷ xs) h = ground (arith, h x, find_by-delete_other p q xs h)

  -- An update that makes no row pass leaves none that does.
  pub find_by-update_none :
      (p q : A → Bool) (f : A → A) (xs : List A)
      → ((x : A) → p x ≡ false → p (f x) ≡ false)
      → find_by p xs ≡ none
      → find_by p (update_where q f xs) ≡ none
  unfolding find_by update_where
  find_by-update_none p q f [] h e = refl
  find_by-update_none p q f (x ∷ xs) h e = ground (arith, h x, find_by-update_none p q f xs h)

  -- An update of the rows that pass, after which none passes.
  pub find_by-update_all :
      (p : A → Bool) (f : A → A) (xs : List A)
      → ((x : A) → p (f x) ≡ false)
      → find_by p (update_where p f xs) ≡ none
  unfolding find_by update_where
  find_by-update_all p f [] h = refl
  find_by-update_all p f (x ∷ xs) h = ground (arith, h x, find_by-update_all p f xs h)

  -- A row that the update makes pass is found.
  pub find_by-update_made :
      (p q : A → Bool) (f : A → A) (xs : List A) (a : A)
      → ((x : A) → q x ≡ true → p (f x) ≡ true)
      → find_by q xs ≡ some a
      → (b : A) × (find_by p (update_where q f xs) ≡ some b)
  unfolding find_by update_where
  find_by-update_made p q f [] a h e = absurd (cc e)
  find_by-update_made p q f (x ∷ xs) a h e = elim (Bool-cases (q x)) [
    | inl changed ↦ (f x, rw (changed, h x changed) refl)
    | inr same ↦
        let (b, found) = find_by-update_made p q f xs a h (ground arith) in
        elim (Bool-cases (p x)) [
          | inl hit ↦ (x, rw (same, hit) refl)
          | inr miss ↦ (b, rw (same, miss) found)
        ]
  ]

  pub length-update_where :
      (p : A → Bool) (f : A → A) (xs : List A) → length (update_where p f xs) ≡ length xs
  unfolding update_where
  length-update_where p f [] = refl
  length-update_where p f (x ∷ xs) = omega (arith, length-update_where p f xs)

  -- A new row of another name.
  pub find_by-append_other :
      (p : A → Bool) (xs : List A) (a : A) → p a ≡ false → find_by p (xs ++ a ∷ []) ≡ find_by p xs
  unfolding find_by
  find_by-append_other p [] a h = ground arith
  find_by-append_other p (x ∷ xs) a h = ground (arith, find_by-append_other p xs a h)

  pub find_by-append_found :
      (p : A → Bool) (xs ys : List A) (a : A)
      → find_by p xs ≡ some a
      → find_by p (xs ++ ys) ≡ some a
  unfolding find_by
  find_by-append_found p [] ys a h = absurd (cc h)
  find_by-append_found p (x ∷ xs) ys a h = ground (arith, find_by-append_found p xs ys a)
