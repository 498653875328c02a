-- ===== src/Base/Ascending.antt =====
-- Sorting by a total order: the result is determined by the elements of a list without repeats.
use mathlib.Core.Path.{◌≡◌, refl, sym, ◌∙◌, ap₂, subst}
use mathlib.Core.Logic.{◌↔◌, ◌⊎◌, inl, inr}
use mathlib.Core.Bool.{Bool, true, false}
use mathlib.Core.List.{List, [], ◌∷◌}
use native.Mathlib.Omega.{arith}
use minti.Base.Tests.{Bool-cases}
use minti.Base.Lists.{In}
use minti.Base.Sort.{insert_sorted, sort_slice, IsStrict}

module _ {A : Type 0} (less : A → A → Bool) where
  -- Each element lies below all that follow.
  abbrev pub IsAscending : List A → Type 0
  IsAscending [] = Unit
  IsAscending (x ∷ xs) = ((z : A) → In z xs → less x z ≡ true) × IsAscending xs

  -- No two positions hold elements that the order does not tell apart.
  abbrev pub IsApart : List A → Type 0
  IsApart [] = Unit
  IsApart (x ∷ xs) = ((z : A) → In z xs → (less x z ≡ true) ⊎ (less z x ≡ true)) × IsApart xs

  pub In-insert_sorted : (x z : A) (ys : List A) → In z (insert_sorted less x ys) ↔ In z (x ∷ ys)
  unfolding insert_sorted
  In-insert_sorted x z [] = (λ h. h, λ h. h)
  In-insert_sorted x z (y ∷ ys) = elim (Bool-cases (less y x)) [
    | inl e ↦ rw e (
      λ h. ground (arith, (In-insert_sorted x z ys).0),
      λ h. ground (arith, (In-insert_sorted x z ys).1),
    )
    | inr e ↦ rw e (λ h. h, λ h. h)
  ]

  pub In-sort_slice : (z : A) (xs : List A) → In z (sort_slice less xs) ↔ In z xs
  unfolding sort_slice
  In-sort_slice z [] = (λ h. h, λ h. h)
  In-sort_slice z (x ∷ xs) = (
    λ h. ground (arith, (In-insert_sorted x z (sort_slice less xs)).0 h, (In-sort_slice z xs).0),
    λ h. (In-insert_sorted x z (sort_slice less xs)).1 (ground (arith, (In-sort_slice z xs).1)),
  )

  module _ (s : IsStrict less) where
    pub less_trans : (a b c : A) → less a b ≡ true → less b c ≡ true → less a c ≡ true
    less_trans a b c h k = ground (arith, s.weak a c b h, s.asym b c k)

    insert_IsAscending :
        (x : A) (ys : List A)
        → ((z : A) → In z ys → (less x z ≡ true) ⊎ (less z x ≡ true))
        → IsAscending ys
        → IsAscending (insert_sorted less x ys)
    unfolding insert_sorted
    insert_IsAscending x [] apart h = (λ z k. absurd k, tt)
    insert_IsAscending x (y ∷ ys) apart h = elim (Bool-cases (less y x)) [
      | inl e ↦ rw e (
        λ z k. elim ((In-insert_sorted x z ys).0 k) [
          | inl p ↦ subst (λ w. less y w ≡ true) (sym p) e
          | inr k' ↦ h.0 z k'
        ],
        insert_IsAscending x ys (λ z k. apart z (inr k)) h.1,
      )
      | inr e ↦ rw e (
        λ z k. elim k [
          | inl p ↦ subst (λ w. less x w ≡ true) (sym p) (first e)
          | inr k' ↦ less_trans x y z (first e) (h.0 z k')
        ],
        h,
      )
    ]
      where
        first : less y x ≡ false → less x y ≡ true
        first e = ground (arith, apart y (inl refl))

    pub sort_slice-IsAscending : (xs : List A) → IsApart xs → IsAscending (sort_slice less xs)
    unfolding sort_slice
    sort_slice-IsAscending [] h = tt
    sort_slice-IsAscending (x ∷ xs) h =
        insert_IsAscending x (sort_slice less xs) (λ z k. h.0 z ((In-sort_slice z xs).0 k))
          (sort_slice-IsAscending xs h.1)

    irrefl : (a b : A) → a ≡ b → less a b ≡ true → ⊥
    irrefl a b p h =
        let h' : less a a ≡ true = subst (λ w. less a w ≡ true) (sym p) h in
        ground (arith, s.asym a a)

    heads_equal :
        (x y : A) (xs ys : List A)
        → IsAscending (x ∷ xs)
        → IsAscending (y ∷ ys)
        → In x (y ∷ ys)
        → In y (x ∷ xs)
        → x ≡ y
    heads_equal x y xs ys h k (inl p) _ = p
    heads_equal x y xs ys h k (inr m) (inl q) = sym q
    heads_equal x y xs ys h k (inr m) (inr m') =
        absurd (ground (arith, s.asym x y, h.0 y m', k.0 x m))

    tail-In :
        (x y z : A) (xs ys : List A)
        → IsAscending (x ∷ xs)
        → x ≡ y
        → In z (y ∷ ys)
        → In z xs
        → In z ys
    tail-In x y z xs ys h p (inl q) m = absurd (irrefl x z (p ∙ sym q) (h.0 z m))
    tail-In x y z xs ys h p (inr m') m = m'

    -- Two ascending lists with the same elements are one list.
    pub IsAscending-unique :
        (xs ys : List A) → IsAscending xs → IsAscending ys → ((z : A) → In z xs ↔ In z ys) → xs ≡ ys
    IsAscending-unique [] [] h k same = refl
    IsAscending-unique [] (y ∷ ys) h k same = absurd ((same y).1 (inl refl))
    IsAscending-unique (x ∷ xs) [] h k same = absurd ((same x).0 (inl refl))
    IsAscending-unique (x ∷ xs) (y ∷ ys) h k same =
        let e : x ≡ y = heads_equal x y xs ys h k ((same x).0 (inl refl)) ((same y).1 (inl refl)) in
        ap₂ ◌∷◌ e (
          IsAscending-unique xs ys h.1 k.1 (λ z. (
            λ m. tail-In x y z xs ys h e ((same z).0 (inr m)) m,
            λ m. tail-In y x z ys xs k (sym e) ((same z).1 (inr m)) m,
          )))
