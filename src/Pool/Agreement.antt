-- ===== src/Pool/Agreement.antt =====
-- The matcher in memory and the query of the effective binding say the same.
use etask.Base.{
  ℕ, ◌≡◌, refl, sym, ap, ◌∙◌, arith, Bool, true, false, ◌&&◌, ◌||◌, List, [], ◌∷◌, Option, none,
  some, inl, inr, leb, ◌==◌, if◌then◌else◌, Bool-cases, Option-cases, Member, first_where-Member,
  subst, first_where, keep_where, count_where, sort_by, insert_by, head?,
}
use etask.Domain.Pool.{ExecutionPoolBinding}
use etask.Pool.Matcher.{BindingMatcher, add_binding, add_bindings}

abbrev pub or_else : {A B : Type 0} → B → (A → B) → Option A → B
or_else b f none = b
or_else b f (some a) = f a

pub count_where-first :
    {A : Type 0} (p : A → Bool) (xs : List A) → count_where p xs ≡ 0 → first_where p xs ≡ none
count_where-first p [] h = refl
count_where-first p (x ∷ xs) h = ground (arith, count_where-first p xs)

module _ {S : Type 0} (watch : BindingMatcher → S) (p : ExecutionPoolBinding → Bool)
    (val : ExecutionPoolBinding → S)
    (step : (m : BindingMatcher) (b : ExecutionPoolBinding)
      → watch (add_binding m b) ≡ (if p b then val b else watch m)) where
  -- what is watched of a matcher comes from the one row that sets it
  pub watch-add_bindings :
      (m : BindingMatcher) (bs : List ExecutionPoolBinding)
      → leb (count_where p bs) 1 ≡ true
      → watch (add_bindings m bs) ≡ or_else (watch m) val (first_where p bs)
  unfolding add_bindings
  watch-add_bindings m [] h = refl
  watch-add_bindings m (b ∷ bs) h = elim (Bool-cases (p b)) [
    | inl e ↦
        let alone = count_where-first p bs (ground arith) in
        watch-add_bindings (add_binding m b) bs (ground arith)
        ∙ ap (or_else (watch (add_binding m b)) val) alone
        ∙ step m b
        ∙ rw e refl
    | inr e ↦
        let same : watch (add_binding m b) ≡ watch m = step m b ∙ rw e refl in
        watch-add_bindings (add_binding m b) bs (ground arith)
        ∙ ap (λ s. or_else s val (first_where p bs)) same
        ∙ rw e refl
  ]

module _ {A : Type 0} (p q r : A → Bool) where
  pub first_where-keep_where :
      (xs : List A)
      → ((x : A) → Member x xs → r x ≡ (q x && p x))
      → (first_where p (keep_where q xs) ≡ first_where r xs)
        × (count_where p (keep_where q xs) ≡ count_where r xs)
  first_where-keep_where [] h = (refl, refl)
  first_where-keep_where (x ∷ xs) h =
      let ih = first_where-keep_where xs (λ y m. h y (inr m)) in
      let here = h x (inl refl) in
      elim (Bool-cases (q x)) [
        | inl e ↦ elim (Bool-cases (p x)) [
          | inl f ↦ (ground arith, ground arith)
          | inr f ↦ (ground arith, ground arith)
        ]
        | inr e ↦ (ground arith, ground arith)
      ]

  pub first_where-or :
      (xs : List A)
      → ((x : A) → r x ≡ (p x || q x))
      → first_where p xs ≡ none
      → head? (keep_where r xs) ≡ first_where q xs
  first_where-or [] h none_there = refl
  first_where-or (x ∷ xs) h none_there = elim (Bool-cases (p x)) [
    | inl e ↦ absurd (ground arith)
    | inr e ↦
        let ih = first_where-or xs h (ground arith) in
        let here = h x in elim (Bool-cases (q x)) [ inl f ↦ ground arith | inr f ↦ ground arith ]
  ]

module _ {A : Type 0} (key : A → ℕ) (short : (x : A) → leb (key x) 1 ≡ true) where
  abbrev first_ranked : List A → Option A
  first_ranked xs = or_else (head? xs) some (first_where (λ x. key x == 0) xs)

  head-ranked :
      (y : A) (xs : List A)
      → head? xs ≡ some y
      → first_where (λ x. key x == 0) xs ≡ none
      → key y ≡ 1
  head-ranked y [] h n = absurd (ground arith)
  head-ranked y (x ∷ xs) h n =
      let k = short y in
      let e : x ≡ y = ground arith in
      let g : (key x == 0) ≡ false = ground arith in
      let f : (key y == 0) ≡ false = subst (λ z. (key z == 0) ≡ false) e g in ground arith

  head?-insert_by :
      (x : A) (xs ys : List A)
      → head? ys ≡ first_ranked xs
      → head? (insert_by key x ys) ≡ first_ranked (x ∷ xs)
  unfolding insert_by
  head?-insert_by x xs [] h = elim (Option-cases (first_where (λ z. key z == 0) xs)) [
    | inl e ↦ ground arith
    | inr (z, e) ↦ absurd (ground arith)
  ]
  head?-insert_by x xs (y ∷ ys) h =
      let k = short x in
      elim (Bool-cases (key x == 0)) [
        | inl f ↦ ground arith
        | inr f ↦ elim (Option-cases (first_where (λ z. key z == 0) xs)) [
          | inl e ↦
              let top : head? xs ≡ some y = sym (h ∙ ap (or_else (head? xs) some) e) in
              let one : key y ≡ 1 = head-ranked y xs top e in ground arith
          | inr (z, e) ↦
              let nought : (key z == 0) ≡ true = (first_where-Member (λ x. key x == 0) z xs e).1 in
              let same : y ≡ z = ground arith in
              let at : (key y == 0) ≡ true = subst (λ u. (key u == 0) ≡ true) (sym same) nought in
              ground arith
        ]
      ]

  pub head?-sort_by : (xs : List A) → head? (sort_by key xs) ≡ first_ranked xs
  unfolding sort_by
  head?-sort_by [] = refl
  head?-sort_by (x ∷ xs) = head?-insert_by x xs (sort_by key xs) (head?-sort_by xs)
