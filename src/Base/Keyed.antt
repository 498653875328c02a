-- ===== src/Base/Keyed.antt =====
-- Lists of items with a text key: the first item of a key, the order by key that the code sorts by, and
-- the items of a map that is keyed by them.
use mathlib.Core.Path.{◌≡◌, refl, sym, subst, ◌∙◌, ap}
use mathlib.Core.Logic.{◌≢◌, ◌↔◌, inl, inr}
use mathlib.Core.Bool.{Bool, true}
use mathlib.Core.List.{List, [], ◌∷◌, map}
use mathlib.Core.Option.{Option, none, some}
use Prim.Native.String.{String}
use native.Mathlib.Omega.{arith}
use text.Mathlib.Text.{◌==◌}
use text.Mathlib.TextEquality.{eq_iff}
use minti.Base.Tests.{if◌then◌else◌, Bool-cases}
use minti.Base.Lists.{In, IsDistinct}
use minti.Base.Texts.{str_lt, str_lt-asym, str_lt-weak, str_lt-total}
use minti.Base.Sort.{insert_sorted, sort_slice, IsStrict}
use minti.Base.Ascending.{IsAscending, IsApart, IsAscending-unique, sort_slice-IsAscending}
use minti.Base.Dict.{lookup, insert, lookup-insert}

pub str_lt-IsStrict : IsStrict str_lt
str_lt-IsStrict = record { asym = str_lt-asym; weak = λ a b c. str_lt-weak a b c }

str_lt_irrefl : (s t : String) → s ≡ t → str_lt s t ≡ true → ⊥
str_lt_irrefl s t e h =
    let h' : str_lt s s ≡ true = subst (λ w. str_lt s w ≡ true) (sym e) h in
    ground (arith, str_lt-asym s s)

pub IsDistinct-IsApart : (xs : List String) → IsDistinct xs → IsApart str_lt xs
IsDistinct-IsApart [] h = tt
IsDistinct-IsApart (x ∷ xs) h = (
  λ z m. elim (Bool-cases (str_lt x z)) [
    | inl e ↦ inl e
    | inr e ↦ elim (Bool-cases (str_lt z x)) [
      | inl f ↦ inr f
      | inr f ↦ absurd (h.0 (subst (λ w. In w xs) (sym (str_lt-total x z e f)) m))
    ]
  ],
  IsDistinct-IsApart xs h.1,
)

module _ {A : Type 0} (key : A → String) where
  unfoldable pub by_key : A → A → Bool
  by_key a b = str_lt (key a) (key b)

  -- The first item of a key.
  unfoldable pub find : String → List A → Option A
  find k [] = none
  find k (x ∷ xs) = if key x == k then some x else find k xs

  pub by_key-IsStrict : IsStrict by_key
  unfolding by_key
  by_key-IsStrict = record {
    asym = λ a b. str_lt-asym (key a) (key b);
    weak = λ a b c. str_lt-weak (key a) (key b) (key c);
  }

  find-insert_sorted :
      (k : String) (x : A) (ys : List A) → find k (insert_sorted by_key x ys) ≡ find k (x ∷ ys)
  unfolding find insert_sorted by_key
  find-insert_sorted k x [] = refl
  find-insert_sorted k x (y ∷ ys) = ground (
    arith,
    find-insert_sorted k x ys,
    eq_iff (key x) k,
    eq_iff (key y) k,
    str_lt_irrefl (key y) (key x),
  )

  -- Sorting by key does not change which item is the first of a key.
  pub find-sort_slice : (k : String) (xs : List A) → find k (sort_slice by_key xs) ≡ find k xs
  unfolding find sort_slice
  find-sort_slice k [] = refl
  find-sort_slice k (x ∷ xs) =
      find-insert_sorted k x (sort_slice by_key xs)
      ∙ ap (λ o. if key x == k then some x else o) (find-sort_slice k xs)

  pub find_sound : (k : String) (z : A) (xs : List A) → find k xs ≡ some z → In z xs × (key z ≡ k)
  unfolding find
  find_sound k z [] h = ground arith
  find_sound k z (x ∷ xs) h = elim (Bool-cases (key x == k)) [
    | inl e ↦
        let same : some x ≡ some z = rw e at h in (ground arith, ground (arith, eq_iff (key x) k))
    | inr e ↦
        let later : find k xs ≡ some z = rw e at h in
        let (m, p) = find_sound k z xs later in (inr m, p)
  ]

  In-map : (z : A) (xs : List A) → In z xs → In (key z) (map key xs)
  In-map z [] h = absurd h
  In-map z (x ∷ xs) (inl p) = inl (ap key p)
  In-map z (x ∷ xs) (inr h) = inr (In-map z xs h)

  pub find_complete :
      (z : A) (xs : List A) → IsDistinct (map key xs) → In z xs → find (key z) xs ≡ some z
  unfolding find
  find_complete z [] d h = absurd h
  find_complete z (x ∷ xs) d (inl p) =
      rw ((eq_iff (key x) (key z)).1 (ap key (sym p))) (ap some (sym p))
  find_complete z (x ∷ xs) d (inr h) = elim (Bool-cases (key x == key z)) [
    | inl e ↦
        absurd (
          d.0 (subst (λ w. In w (map key xs)) (sym ((eq_iff (key x) (key z)).0 e)) (In-map z xs h)))
    | inr e ↦ rw e (find_complete z xs d.1 h)
  ]

  keys-IsApart : (xs : List A) → IsApart str_lt (map key xs) → IsApart by_key xs
  unfolding by_key
  keys-IsApart [] h = tt
  keys-IsApart (x ∷ xs) h = (λ z m. h.0 (key z) (In-map z xs m), keys-IsApart xs h.1)

  -- Items of different keys are sorted into ascending order.
  pub sort_by_key-IsAscending :
      (xs : List A) → IsDistinct (map key xs) → IsAscending by_key (sort_slice by_key xs)
  sort_by_key-IsAscending xs d =
      sort_slice-IsAscending by_key by_key-IsStrict xs
        (keys-IsApart xs (IsDistinct-IsApart (map key xs) d))

  In-unmap : (k : String) (xs : List A) → In k (map key xs) → (z : A) × In z xs × (k ≡ key z)
  In-unmap k [] h = absurd h
  In-unmap k (x ∷ xs) (inl p) = (x, inl refl, p)
  In-unmap k (x ∷ xs) (inr h) = let (z, m, p) = In-unmap k xs h in (z, inr m, p)

  pub IsAscending-keys : (xs : List A) → IsAscending by_key xs → IsAscending str_lt (map key xs)
  unfolding by_key
  IsAscending-keys [] h = tt
  IsAscending-keys (x ∷ xs) h = (
    λ k m.
        let (z, n, p) = In-unmap k xs m in subst (λ w. str_lt (key x) w ≡ true) (sym p) (h.0 z n),
    IsAscending-keys xs h.1,
  )

  texts-IsDistinct : (xs : List String) → IsAscending str_lt xs → IsDistinct xs
  texts-IsDistinct [] h = tt
  texts-IsDistinct (x ∷ xs) h = (λ m. str_lt_irrefl x x refl (h.0 x m), texts-IsDistinct xs h.1)

  pub ascending-IsDistinct : (xs : List A) → IsAscending by_key xs → IsDistinct (map key xs)
  ascending-IsDistinct xs h = texts-IsDistinct (map key xs) (IsAscending-keys xs h)

  -- Two lists in ascending order that hold the same item of each key are one list.
  pub ascending_unique :
      (xs ys : List A)
      → IsAscending by_key xs
      → IsAscending by_key ys
      → ((k : String) → find k xs ≡ find k ys)
      → xs ≡ ys
  ascending_unique xs ys h k same = IsAscending-unique by_key by_key-IsStrict xs ys h k (λ z. (
    λ m.
        (find_sound (key z) z ys
          (sym (same (key z)) ∙ find_complete z xs (ascending-IsDistinct xs h) m)).0,
    λ m.
        (find_sound (key z) z xs
          (same (key z) ∙ find_complete z ys (ascending-IsDistinct ys k) m)).0,
  ))

  -- A key stands in a list exactly when an item of it is found.
  pub keys_iff : (k : String) (xs : List A) → In k (map key xs) ↔ (find k xs ≢ none)
  unfolding find
  keys_iff k [] = (λ h. absurd h, λ h. absurd (h refl))
  keys_iff k (x ∷ xs) = ground (arith, keys_iff k xs, eq_iff (key x) k)

  -- A map whose items stand under their own keys, each key once.
  abbrev pub IsKeyed : List (String × A) → Type 0
  IsKeyed [] = Unit
  IsKeyed ((k, x) ∷ d) = (k ≡ key x) × (lookup k d ≡ none) × IsKeyed d

  unfoldable pub values : List (String × A) → List A
  values [] = []
  values ((k, x) ∷ d) = x ∷ values d

  pub find-values :
      (k : String) (d : List (String × A)) → IsKeyed d → find k (values d) ≡ lookup k d
  unfolding find lookup values
  find-values k [] h = refl
  find-values k ((here, x) ∷ d) (p, q, h) =
      let ih = find-values k d h in
      subst
        (λ w.
          (if key x == k then some x else find k (values d))
          ≡ (if w == k then some x else lookup k d))
        (sym p) (ap (λ o. if key x == k then some x else o) ih)

  pub values-IsDistinct : (d : List (String × A)) → IsKeyed d → IsDistinct (map key (values d))
  unfolding values
  values-IsDistinct [] h = tt
  values-IsDistinct ((here, x) ∷ d) (p, q, h) = (
    λ m.
        (keys_iff (key x) (values d)).0 m
          (find-values (key x) d h ∙ subst (λ w. lookup w d ≡ none) p q),
    values-IsDistinct d h,
  )

  pub insert-IsKeyed : (x : A) (d : List (String × A)) → IsKeyed d → IsKeyed (insert (key x) x d)
  unfolding insert lookup
  insert-IsKeyed x [] h = (refl, refl, tt)
  insert-IsKeyed x ((here, y) ∷ d) (p, q, h) = elim (Bool-cases (here == key x)) [
    | inl e ↦ rw e (refl, subst (λ w. lookup w d ≡ none) ((eq_iff here (key x)).0 e) q, h)
    | inr e ↦ rw e (
      p,
      rw (lookup-insert (key x) here x d)
          (ground (arith, eq_iff here (key x), eq_iff (key x) here)),
      insert-IsKeyed x d h,
    )
  ]
