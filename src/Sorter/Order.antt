-- ===== src/Sorter/Order.antt =====
-- What a plan of pkg/sorter does to the order of the rows.
use etask.Base.{
  subst, map, ap, ◌∙◌, ℕ, zero, suc, ◌+◌, ◌/◌, ◌<◌, ◌≡◌, refl, arith, Bool, true, false, some, List,
  [], ◌∷◌, length, ℤ, pos, negsuc, pos_part, neg_part, ◌+ℤ◌, wrap_64, leb, leb_ℤ, two_62, All,
  Bool-cases, inl, inr, wrap_64-fits,
}
use etask.Sorter.{
  Sortable, half, get_elem?, insert_at, clamp, key_at, calculate_sort_key, needs_rebalance,
}

-- The keys go up strictly, from above `low`.
abbrev pub Ascending : ℤ → List ℤ → Type 0
Ascending low [] = Unit {0}
Ascending low (k ∷ ks) = (pos_part low + neg_part k < pos_part k + neg_part low) × Ascending k ks

-- There is room for the key `k` in the place `i`.
abbrev Fits : ℕ → ℤ → ℤ → List ℤ → Type 0
Fits zero k low [] = Ascending low (k ∷ [])
Fits zero k low (x ∷ xs) = Ascending low (k ∷ x ∷ [])
Fits (suc i) k low [] = Ascending low (k ∷ [])
Fits (suc i) k low (x ∷ xs) = Fits i k x xs

insert_at-Ascending :
    (i : ℕ) (k low : ℤ) (ks : List ℤ)
    → Ascending low ks
    → Fits i k low ks
    → Ascending low (insert_at i k ks)
insert_at-Ascending zero k low [] a f = f
insert_at-Ascending zero k low (x ∷ xs) a f = (f.0, (f.1.0, a.1))
insert_at-Ascending (suc i) k low [] a f = f
insert_at-Ascending (suc i) k low (x ∷ xs) a f = (a.0, insert_at-Ascending i k x xs a.1 f)

-- between two neighbours
Fits-between :
    (i : ℕ) (k low a b : ℤ) (ks : List ℤ)
    → get_elem? ks i ≡ some a
    → get_elem? ks (suc i) ≡ some b
    → Ascending a (k ∷ b ∷ [])
    → Fits (suc i) k low ks
Fits-between i k low a b [] h g f = absurd (ground arith)
Fits-between zero k low a b (x ∷ []) h g f = absurd (ground arith)
Fits-between zero k low a b (x ∷ y ∷ ys) h g f = ground arith
Fits-between (suc i) k low a b (x ∷ xs) h g f = Fits-between i k x a b xs h g f

-- after the last
Fits-last :
    (i : ℕ) (k low a : ℤ) (ks : List ℤ)
    → length ks ≡ suc i
    → get_elem? ks i ≡ some a
    → Ascending a (k ∷ [])
    → Fits (suc i) k low ks
Fits-last i k low a [] n h f = absurd (omega arith)
Fits-last zero k low a (x ∷ []) n h f = ground arith
Fits-last zero k low a (x ∷ y ∷ ys) n h f = absurd (omega arith)
Fits-last (suc i) k low a (x ∷ xs) n h f = Fits-last i k x a xs (omega arith) h f

-- Within the list there is an element, and the next one has a larger key.
neighbours :
    (i : ℕ) (low : ℤ) (ks : List ℤ)
    → Ascending low ks
    → suc i < length ks
    → (a : ℤ) × (b : ℤ) × (get_elem? ks i ≡ some a)
      × (get_elem? ks (suc i) ≡ some b)
      × Ascending low (a ∷ [])
      × Ascending a (b ∷ [])
neighbours i low [] a n = absurd (omega arith)
neighbours zero low (x ∷ []) a n = absurd (omega arith)
neighbours zero low (x ∷ y ∷ ys) a n = (x, y, refl, refl, (a.0, tt), (a.1.0, tt))
neighbours (suc i) low (x ∷ xs) a n =
    let rest = neighbours i x xs a.1 (omega arith) in
    (rest.0, rest.1, rest.2, rest.3, (omega (arith, rest.4.0, a.0), tt), rest.5)

last_key :
    (i : ℕ) (low : ℤ) (ks : List ℤ)
    → Ascending low ks
    → length ks ≡ suc i
    → (a : ℤ) × (get_elem? ks i ≡ some a) × Ascending low (a ∷ [])
last_key i low [] a n = absurd (omega arith)
last_key zero low (x ∷ xs) a n = (x, refl, (a.0, tt))
last_key (suc i) low (x ∷ xs) a n =
    let rest = last_key i x xs a.1 (omega arith) in
    (rest.0, rest.1, (omega (arith, rest.2.0, a.0), tt))

abbrev pub keys : {E : Type 0} ⦃o : Sortable E⦄ → List E → List ℤ
keys ⦃o⦄ = map o.get_sort_key

abbrev pub ids : {E : Type 0} ⦃o : Sortable E⦄ → List E → List ℕ
ids ⦃o⦄ = map o.get_id

get_elem?-below :
    (i : ℕ) (P : ℤ → Type 0) (ks : List ℤ) (a : ℤ) → All P ks → get_elem? ks i ≡ some a → P a
get_elem?-below i P [] a h e = absurd (ground arith)
get_elem?-below zero P (x ∷ xs) a h e = subst P (ground arith) h.0
get_elem?-below (suc i) P (x ∷ xs) a h e = get_elem?-below i P xs a h.1 e

add_pos : (m n : ℕ) → pos m +ℤ pos n ≡ pos (m + n)
unfolding ◌+ℤ◌
add_pos m n = ground arith

-- Half the sum of two small keys is not cut off.
half_sum : (m n : ℕ) → m < two_62 → n < two_62 → half (wrap_64 (pos m +ℤ pos n)) ≡ pos ((m + n) / 2)
unfolding half
half_sum m n h g = rw (add_pos m n, wrap_64-fits (m + n) (omega arith)) refl

lower : (ks : List ℤ) → Ascending (pos 0) ks → Ascending (negsuc 0) ks
lower [] h = tt
lower (k ∷ ks) h = (omega (arith, h.0), h.1)

clamp_end :
    (position : ℤ) (i n : ℕ)
    → n ≡ suc i
    → leb_ℤ (pos (suc i)) position ≡ true
    → clamp position n ≡ suc i
clamp_end position i n e h = ground arith

clamp_inside : (i n : ℕ) → suc i < n → clamp (pos (suc i)) n ≡ suc i
clamp_inside i n h = ground arith

above_zero : (k : ℤ) → Ascending (pos 0) (k ∷ []) → (n : ℕ) × (k ≡ pos n) × (0 < n)
above_zero (pos n) h = (n, refl, omega arith)
above_zero (negsuc n) h = absurd (omega arith)

-- the planned key, and whether it calls for new keys throughout
abbrev pub Computes : {E : Type 0} ⦃o : Sortable E⦄ → ℤ → List E → ℤ → ℤ → Bool → Type 0
Computes gap es position key full =
    (calculate_sort_key gap es position ≡ some key) × (needs_rebalance es position key ≡ some full)

module _ {E : Type 0} ⦃o : Sortable E⦄ where
  key_at-keys :
      (es : List E) (i : ℕ) (k : ℤ) → get_elem? (keys es) i ≡ some k → key_at es i ≡ some k
  key_at-keys [] i k h = absurd (ground arith)
  key_at-keys (e ∷ es) zero k h = h
  key_at-keys (e ∷ es) (suc i) k h = key_at-keys es i k h

  length-keys : (es : List E) → length (keys es) ≡ length es
  length-keys [] = refl
  length-keys (e ∷ es) = ap suc (length-keys es)

  -- Small keys, in order: what the sums of two of them, and of one and the gap, stay within.
  abbrev pub IsSpaced : List E → Type 0
  IsSpaced es = Ascending (pos 0) (keys es) × All (λ k. pos_part k < two_62) (keys es)

  abbrev pub Keeps : List E → ℤ → ℤ → Bool → Type 0
  Keeps es position key full =
      full ≡ false → Ascending (negsuc 0) (insert_at (clamp position (length es)) key (keys es))

  abbrev Placed : List E → ℤ → Type 0
  Placed es position =
      (key : ℤ) × (full : Bool) × Computes (pos 1000) es position key full
      × Keeps es position key full

  place_alone : (es : List E) (position : ℤ) → length es ≡ 0 → Placed es position
  unfolding calculate_sort_key needs_rebalance
  place_alone [] position n = (pos 1000, false, (refl, ground arith), λ _. ground arith)
  place_alone (e ∷ es) position n = absurd (omega arith)

  -- A place after the last, and one between two neighbours.
  place_at_end :
      (es : List E) (position : ℤ) (i n : ℕ)
      → IsSpaced es
      → length es ≡ suc i
      → leb_ℤ (pos (suc i)) position ≡ true
      → get_elem? (keys es) i ≡ some (pos n)
      → n < two_62
      → Placed es position
  unfolding calculate_sort_key needs_rebalance
  place_at_end es position i n s e h found small =
      let there = key_at-keys es i (pos n) found in
      let sum = add_pos n 1000 in
      let fits = wrap_64-fits (n + 1000) (omega arith) in
      (
        pos (n + 1000),
        false,
        (ground arith, ground arith),
        λ _. insert_at-Ascending _ (pos (n + 1000)) (negsuc 0) (keys es) (lower (keys es) s.0) (
            rw (clamp_end position i (length es) e h) (
              Fits-last i (pos (n + 1000)) (negsuc 0) (pos n) (keys es) (length-keys es ∙ e) found
                (omega arith, tt))),
      )

  place_first :
      (e : E) (es : List E) (position : ℤ) (n : ℕ)
      → IsSpaced (e ∷ es)
      → leb_ℤ position (pos 0) ≡ true
      → o.get_sort_key e ≡ pos n
      → 0 < n
      → Placed (e ∷ es) position
  unfolding calculate_sort_key needs_rebalance half
  place_first e es position n s h k up = (
    pos (n / 2),
    false,
    (ground arith, ground arith),
    λ _. rw h (rw k (omega arith, (omega arith, subst (λ z. Ascending z (keys es)) k s.0.1))),
  )

  place_between :
      (es : List E) (i m n : ℕ)
      → IsSpaced es
      → suc i < length es
      → get_elem? (keys es) i ≡ some (pos m)
      → get_elem? (keys es) (suc i) ≡ some (pos n)
      → m < n
      → n < two_62
      → Placed es (pos (suc i))
  unfolding calculate_sort_key needs_rebalance
  place_between es i m n s inside at_left at_right up small =
      let left = key_at-keys es i (pos m) at_left in
      let right = key_at-keys es (suc i) (pos n) at_right in
      let sum = half_sum m n (omega arith) small in
      (
        pos ((m + n) / 2),
        leb ((m + n) / 2) m,
        (ground arith, ground arith),
        λ roomy. rw (clamp_inside i (length es) inside) (
            insert_at-Ascending (suc i) (pos ((m + n) / 2)) (negsuc 0) (keys es)
              (lower (keys es) s.0)
              (Fits-between i (pos ((m + n) / 2)) (negsuc 0) (pos m) (pos n) (keys es) at_left
                at_right (ground arith, (ground arith, tt)))),
      )

  place_behind :
      (e : E) (es : List E) (position : ℤ)
      → IsSpaced (e ∷ es)
      → leb_ℤ (pos (length (e ∷ es))) position ≡ true
      → Placed (e ∷ es) position
  place_behind e es position s h =
      let last = last_key (length es) (pos 0) (keys (e ∷ es)) s.0 (length-keys (e ∷ es)) in
      let k = above_zero last.0 last.2 in
      let found : get_elem? (keys (e ∷ es)) (length es) ≡ some (pos k.0) = last.1 ∙ ap some k.1 in
      place_at_end (e ∷ es) position (length es) k.0 s refl h found
        (get_elem?-below (length es) (λ z. pos_part z < two_62) (keys (e ∷ es)) (pos k.0) s.1 found)

  place_within : (es : List E) (i : ℕ) → IsSpaced es → suc i < length es → Placed es (pos (suc i))
  place_within es i s inside =
      let near = neighbours i (pos 0) (keys es) s.0 (rw (length-keys es) inside) in
      let m = above_zero near.0 near.4 in
      let up = subst (λ z. Ascending z (near.1 ∷ [])) m.1 near.5 in
      let n = above_zero near.1 (omega (arith, up.0), tt) in
      let right : get_elem? (keys es) (suc i) ≡ some (pos n.0) = near.3 ∙ ap some n.1 in
      place_between es i m.0 n.0 s inside (near.2 ∙ ap some m.1) right
        (omega (arith, (subst (λ z. Ascending (pos m.0) (z ∷ [])) n.1 up).0))
        (get_elem?-below (suc i) (λ z. pos_part z < two_62) (keys es) (pos n.0) s.1 right)

  -- Wherever the row goes, there is a plan; and if it keeps the keys of the others, they are in order.
  pub place : (es : List E) (position : ℤ) → IsSpaced es → Placed es position
  place [] position s = place_alone [] position refl
  place (e ∷ es) (negsuc p) s =
      let k = above_zero (o.get_sort_key e) (s.0.0, tt) in
      place_first e es (negsuc p) k.0 s (ground arith) k.1 k.2
  place (e ∷ es) (pos zero) s =
      let k = above_zero (o.get_sort_key e) (s.0.0, tt) in
      place_first e es (pos 0) k.0 s (ground arith) k.1 k.2
  place (e ∷ es) (pos (suc i)) s = elim (Bool-cases (leb_ℤ (pos (length (e ∷ es))) (pos (suc i)))) [
    | inl end ↦ place_behind e es (pos (suc i)) s end
    | inr inner ↦ place_within (e ∷ es) i s (ground arith)
  ]
