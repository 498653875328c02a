-- ===== src/Base/Sort.antt =====
-- `sort.Slice` by a Boolean order, and what the first element of the sorted list is.
use mathlib.Core.Path.{◌≡◌, refl, sym, ap, ◌∙◌, subst}
use mathlib.Core.Logic.{◌↔◌, ◌⊎◌, inl, inr}
use mathlib.Core.Bool.{Bool, true, false}
use mathlib.Core.List.{List, [], ◌∷◌, head?}
use mathlib.Core.Option.{Option, none, some}
use native.Mathlib.Omega.{arith}
use minti.Base.Tests.{if◌then◌else◌, Bool-cases}
use minti.Base.Lists.{In}

module _ {ℓ} {A : Type ℓ} where
  unfoldable pub insert_sorted : (A → A → Bool) → A → List A → List A
  insert_sorted less x [] = x ∷ []
  insert_sorted less x (y ∷ ys) = if less y x then y ∷ insert_sorted less x ys else x ∷ y ∷ ys

  unfoldable pub sort_slice : (A → A → Bool) → List A → List A
  sort_slice less [] = []
  sort_slice less (x ∷ xs) = insert_sorted less x (sort_slice less xs)

  -- What `sort.Slice` asks of `less`: a strict weak order.
  pub record IsStrict (less : A → A → Bool) : Type ℓ where
    pub asym : (a b : A) → less a b ≡ true → less b a ≡ false
    pub weak : (a b c : A) → less a c ≡ true → (less a b ≡ true) ⊎ (less b c ≡ true)

module _ {A : Type 0} (less : A → A → Bool) where
  -- `m` is the first of the sorted list: it stands in the list, and nothing lies below it.
  pub record IsLeast (m : A) (xs : List A) : Type 0 where
    pub within : In m xs
    pub least : (z : A) → In z xs → less z m ≡ false

  insert_head : A → Option A → A
  insert_head x none = x
  insert_head x (some y) = if less y x then y else x

  head-insert_sorted :
      (x : A) (ys : List A) → head? (insert_sorted less x ys) ≡ some (insert_head x (head? ys))
  unfolding insert_sorted insert_head
  head-insert_sorted x [] = refl
  head-insert_sorted x (y ∷ ys) = ground arith

  insert_IsLeast :
      IsStrict less
      → (x y : A) (xs : List A) → IsLeast y xs
      → IsLeast (insert_head x (some y)) (x ∷ xs)
  unfolding insert_head
  insert_IsLeast s x y xs l = elim (Bool-cases (less y x)) [
    | inl e ↦ rw e (record {
      within = inr l.within;
      least = λ z. λ h. elim h [
        | inl p ↦ subst (λ w. less w y ≡ false) (sym p) (s.asym y x e)
        | inr h' ↦ l.least z h'
      ];
    })
    | inr e ↦ rw e (record { within = inl refl; least = λ z h. below z h e })
  ]
    where
      below : (z : A) → In z (x ∷ xs) → less y x ≡ false → less z x ≡ false
      below z (inl p) e = elim (Bool-cases (less z x)) [
        | inl t ↦ subst (λ w. less w x ≡ false) (sym p) (ground (arith, s.asym x x))
        | inr f ↦ f
      ]
      below z (inr h) e = ground (arith, s.weak z y x, l.least z h)

  -- The sorted list of a nonempty list begins with a least element.
  pub head-sort_slice :
      IsStrict less
      → (x : A) (xs : List A)
      → (m : A) × (head? (sort_slice less (x ∷ xs)) ≡ some m) × IsLeast m (x ∷ xs)
  unfolding sort_slice insert_head
  head-sort_slice s x [] = (
    x,
    head-insert_sorted x [],
    record { within = inl refl; least = λ z h. ground (arith, s.asym x x) },
  )
  head-sort_slice s x (y ∷ xs) =
      let (m, e, l) = head-sort_slice s y xs in
      (
        insert_head x (some m),
        head-insert_sorted x (sort_slice less (y ∷ xs)) ∙ ap (λ o. some (insert_head x o)) e,
        insert_IsLeast s x m (y ∷ xs) l,
      )

  -- Of two lists with the same elements the least elements are not told apart by the order.
  pub IsLeast-unique :
      (m n : A) (xs ys : List A)
      → ((a : A) → In a xs ↔ In a ys)
      → IsLeast m xs
      → IsLeast n ys
      → (less m n ≡ false) × (less n m ≡ false)
  IsLeast-unique m n xs ys same l k =
      (k.least m ((same m).0 l.within), l.least n ((same n).1 k.within))
