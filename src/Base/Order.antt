-- ===== src/Base/Order.antt =====
-- ORDER BY key ASC: insertion sort, rows with one key in the order of the table.
use Prim.Native.Nat.{zero, suc, ℕ}
use mathlib.Core.Path.{◌≡◌, refl, sym, subst, ap}
use mathlib.Core.Logic.{◌⊎◌, inl, inr}
use mathlib.Core.Bool.{Bool, true, false}
use mathlib.Core.Option.{Option, none, some}
use mathlib.Core.List.{List, [], ◌∷◌}
use native.Mathlib.Omega.{arith}
use etask.Base.Tests.{leb, ◌==◌, if◌then◌else◌, Bool-cases}
use etask.Base.Lists.{take, keep_where, count_where, update_where, first_where}

module _ {A : Type 0} where
  abbrev pub Member : A → List A → Type 0
  Member a [] = ⊥
  Member a (x ∷ xs) = (a ≡ x) ⊎ Member a xs

  unfoldable pub insert_by : (A → ℕ) → A → List A → List A
  insert_by key a [] = a ∷ []
  insert_by key a (x ∷ xs) =
      let rest = insert_by key a xs in if leb (key a) (key x) then a ∷ x ∷ xs else x ∷ rest

  unfoldable pub sort_by : (A → ℕ) → List A → List A
  unfolding insert_by
  sort_by key [] = []
  sort_by key (x ∷ xs) = insert_by key x (sort_by key xs)

  abbrev pub head? : List A → Option A
  head? [] = none
  head? (x ∷ xs) = some x

  Member-insert_by :
      (key : A → ℕ) (a b : A) (xs : List A) → Member b (insert_by key a xs) → (b ≡ a) ⊎ Member b xs
  unfolding insert_by
  Member-insert_by key a b [] m = m
  Member-insert_by key a b (x ∷ xs) m = ground (arith, Member-insert_by key a b xs)

  pub Member-sort_by : (key : A → ℕ) (b : A) (xs : List A) → Member b (sort_by key xs) → Member b xs
  unfolding sort_by
  Member-sort_by key b [] m = m
  Member-sort_by key b (x ∷ xs) m = elim (Member-insert_by key x b (sort_by key xs) m) [
    | inl e ↦ inl e
    | inr r ↦ inr (Member-sort_by key b xs r)
  ]

  Member-keep_cons :
      (p : A → Bool) (b x : A) (xs rest : List A) (t : Bool)
      → p x ≡ t
      → (Member b rest → Member b xs × (p b ≡ true))
      → Member b (if t then x ∷ rest else rest)
      → Member b (x ∷ xs) × (p b ≡ true)
  Member-keep_cons p b x xs rest true e ih (inl h) = (inl h, rw h e)
  Member-keep_cons p b x xs rest true e ih (inr m) = (inr (ih m).0, (ih m).1)
  Member-keep_cons p b x xs rest false e ih m = (inr (ih m).0, (ih m).1)

  pub Member-keep_where :
      (p : A → Bool) (b : A) (xs : List A) → Member b (keep_where p xs) → Member b xs × (p b ≡ true)
  Member-keep_where p b [] m = elim m [ ]
  Member-keep_where p b (x ∷ xs) m =
      Member-keep_cons p b x xs (keep_where p xs) (p x) refl (Member-keep_where p b xs) m

  pub head?-Member : (b : A) (xs : List A) → head? xs ≡ some b → Member b xs
  head?-Member b [] h = absurd (ground arith)
  head?-Member b (x ∷ xs) h = inl (ground arith)

  pub count_where-Member :
      (p : A → Bool) (xs : List A)
      → (count_where p xs == 0) ≡ false
      → (x : A) × Member x xs × (p x ≡ true)
  count_where-Member p [] h = absurd (ground arith)
  count_where-Member p (x ∷ xs) h = elim (Bool-cases (p x)) [
    | inl e ↦ (x, inl refl, e)
    | inr e ↦ let rest = count_where-Member p xs (ground arith) in (rest.0, inr rest.1, rest.2)
  ]

  pub update_where-Member :
      (p : A → Bool) (f : A → A) (x : A) (xs : List A)
      → Member x xs
      → p x ≡ true
      → Member (f x) (update_where p f xs)
  update_where-Member p f x [] m h = elim m [ ]
  update_where-Member p f x (y ∷ ys) (inl e) h = inl (rw e (rw (subst (λ z. p z ≡ true) e h) refl))
  update_where-Member p f x (y ∷ ys) (inr m) h = inr (update_where-Member p f x ys m h)

  pub first_where-Member :
      (p : A → Bool) (x : A) (xs : List A) → first_where p xs ≡ some x → Member x xs × (p x ≡ true)
  first_where-Member p x [] h = absurd (ground arith)
  first_where-Member p x (y ∷ ys) h = elim (Bool-cases (p y)) [
    | inl e ↦ (inl (ground arith), ground arith)
    | inr e ↦ let rest = first_where-Member p x ys (ground arith) in (inr rest.0, rest.1)
  ]

  -- Where no row is met, none is counted and none is changed.
  pub none_where :
      (p : A → Bool) (f : A → A) (xs : List A)
      → ((x : A) → Member x xs → p x ≡ false)
      → (count_where p xs ≡ 0) × (update_where p f xs ≡ xs)
  none_where p f [] h = (refl, refl)
  none_where p f (x ∷ xs) h =
      let e = h x (inl refl) in
      let rest = none_where p f xs (λ y m. h y (inr m)) in
      (rw e rest.0, rw e (ap (λ ys. x ∷ ys) rest.1))

  pub Member-take : (n : ℕ) (b : A) (xs : List A) → Member b (take n xs) → Member b xs
  Member-take zero b xs m = elim m [ ]
  Member-take (suc n) b [] m = m
  Member-take (suc n) b (x ∷ xs) (inl e) = inl e
  Member-take (suc n) b (x ∷ xs) (inr m) = inr (Member-take n b xs m)

  pub count_where-none :
      (p : A → Bool) (x : A) (xs : List A)
      → (count_where p xs == 0) ≡ true
      → Member x xs
      → p x ≡ false
  count_where-none p x [] h m = elim m [ ]
  count_where-none p x (y ∷ ys) h (inl e) = elim (Bool-cases (p y)) [
    | inl f ↦ absurd (ground arith)
    | inr f ↦ subst (λ z. p z ≡ false) (sym e) f
  ]
  count_where-none p x (y ∷ ys) h (inr m) = elim (Bool-cases (p y)) [
    | inl f ↦ absurd (ground arith)
    | inr f ↦ count_where-none p x ys (ground arith) m
  ]

-- ORDER BY `before`: rows of which neither is before the other in the order of the table
abbrev pub insert_before : {A : Type 0} → (A → A → Bool) → A → List A → List A
insert_before before a [] = a ∷ []
insert_before before a (x ∷ xs) =
    let rest = insert_before before a xs in if before x a then x ∷ rest else a ∷ x ∷ xs

abbrev pub order_by : {A : Type 0} → (A → A → Bool) → List A → List A
order_by before [] = []
order_by before (x ∷ xs) = insert_before before x (order_by before xs)
