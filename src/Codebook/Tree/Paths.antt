-- ===== src/Codebook/Tree/Paths.antt =====
-- Paths of ids, their prefixes, and what a move makes of them.
use etask.Base.{
  ℕ, zero, suc, ◌+◌, ◌-◌, ◌≤◌, ◌≡◌, ◌⊎◌, inl, inr, refl, ap, arith, true, List, [], ◌∷◌, ◌++◌,
  length, drop, Member, ◌==◌, ==-self, Bool-cases, pos, sub_ℤ, ◌+ℤ◌,
}
use etask.Domain.Codebook.Checks.{has_prefix}
use etask.Codebook.Sorting.{same_path, replace_prefix}

pub length-snoc : (xs : List ℕ) (i : ℕ) → length (xs ++ (i ∷ [])) ≡ suc (length xs)
length-snoc [] i = refl
length-snoc (x ∷ xs) i = ap suc (length-snoc xs i)

pub snoc-ne-nil : (xs : List ℕ) (i : ℕ) → (xs ++ (i ∷ [])) ≡ [] → ⊥
snoc-ne-nil [] i e = ground arith
snoc-ne-nil (x ∷ xs) i e = ground arith

pub Member-snoc : (xs : List ℕ) (i j : ℕ) → Member j (xs ++ (i ∷ [])) → Member j xs ⊎ (j ≡ i)
Member-snoc [] i j (inl e) = inr e
Member-snoc [] i j (inr m) = elim m [ ]
Member-snoc (x ∷ xs) i j (inl e) = inl (inl e)
Member-snoc (x ∷ xs) i j (inr m) = elim (Member-snoc xs i j m) [
  | inl h ↦ inl (inr h)
  | inr e ↦ inr e
]

pub snoc-Member : (xs : List ℕ) (i j : ℕ) → Member j xs ⊎ (j ≡ i) → Member j (xs ++ (i ∷ []))
snoc-Member [] i j (inl m) = elim m [ ]
snoc-Member [] i j (inr e) = inl e
snoc-Member (x ∷ xs) i j (inl (inl e)) = inl e
snoc-Member (x ∷ xs) i j (inl (inr m)) = inr (snoc-Member xs i j (inl m))
snoc-Member (x ∷ xs) i j (inr e) = inr (snoc-Member xs i j (inr e))

-- A prefix of a longer path is one of the path, or the whole.
pub has_prefix-snoc :
    (q path : List ℕ) (i j : ℕ)
    → has_prefix (path ++ (j ∷ [])) (q ++ (i ∷ [])) ≡ true
    → (has_prefix path (q ++ (i ∷ [])) ≡ true) ⊎ ((path ≡ q) × (j ≡ i))
unfolding has_prefix
has_prefix-snoc [] [] i j h = inr (refl, ground arith)
has_prefix-snoc [] (a ∷ path) i j h = inl (ground arith)
has_prefix-snoc (b ∷ []) [] i j h = absurd (ground arith)
has_prefix-snoc (b ∷ c ∷ q) [] i j h = absurd (ground arith)
has_prefix-snoc (b ∷ q) (a ∷ path) i j h = elim (Bool-cases (a == b)) [
  | inl e ↦ elim (has_prefix-snoc q path i j (ground arith)) [
    | inl p ↦ inl (ground arith)
    | inr p ↦ inr (ground arith, p.1)
  ]
  | inr e ↦ absurd (ground arith)
]

pub has_prefix-Member :
    (q path : List ℕ) (i : ℕ) → has_prefix path (q ++ (i ∷ [])) ≡ true → Member i path
unfolding has_prefix
has_prefix-Member [] [] i h = absurd (ground arith)
has_prefix-Member [] (a ∷ path) i h = inl (ground arith)
has_prefix-Member (b ∷ q) [] i h = absurd (ground arith)
has_prefix-Member (b ∷ q) (a ∷ path) i h = inr (has_prefix-Member q path i (ground arith))

pub has_prefix_self : (path : List ℕ) → has_prefix path path ≡ true
unfolding has_prefix
has_prefix_self [] = refl
has_prefix_self (a ∷ path) = rw (==-self a) (has_prefix_self path)

pub has_prefix-grow :
    (path q : List ℕ) (j : ℕ) → has_prefix path q ≡ true → has_prefix (path ++ (j ∷ [])) q ≡ true
unfolding has_prefix
has_prefix-grow path [] j h = refl
has_prefix-grow [] (b ∷ q) j h = absurd (ground arith)
has_prefix-grow (a ∷ path) (b ∷ q) j h = ground (arith, has_prefix-grow path q j)

pub has_prefix-length : (path q : List ℕ) → has_prefix path q ≡ true → length q ≤ length path
unfolding has_prefix
has_prefix-length path [] h = omega arith
has_prefix-length [] (b ∷ q) h = absurd (ground arith)
has_prefix-length (a ∷ path) (b ∷ q) h = ground (arith, has_prefix-length path q)

drop-snoc :
    (n : ℕ) (path : List ℕ) (j : ℕ)
    → n ≤ length path
    → drop n (path ++ (j ∷ [])) ≡ drop n path ++ (j ∷ [])
drop-snoc zero path j h = refl
drop-snoc (suc n) [] j h = absurd (omega arith)
drop-snoc (suc n) (a ∷ path) j h = drop-snoc n path j (omega arith)

append_assoc : (xs ys zs : List ℕ) → xs ++ (ys ++ zs) ≡ (xs ++ ys) ++ zs
append_assoc [] ys zs = refl
append_assoc (x ∷ xs) ys zs = ap (λ r. x ∷ r) (append_assoc xs ys zs)

-- What lies below a moved node goes with it.
pub replace_prefix-snoc :
    (old new path : List ℕ) (j : ℕ)
    → has_prefix path old ≡ true
    → replace_prefix old new (path ++ (j ∷ [])) ≡ replace_prefix old new path ++ (j ∷ [])
replace_prefix-snoc old new path j h =
    rw (drop-snoc (length old) path j (has_prefix-length path old h))
      (append_assoc new (drop (length old) path) (j ∷ []))

drop-all : (path : List ℕ) → drop (length path) path ≡ []
drop-all [] = refl
drop-all (a ∷ path) = drop-all path

append-nil : (xs : List ℕ) → xs ++ [] ≡ xs
append-nil [] = refl
append-nil (x ∷ xs) = ap (λ r. x ∷ r) (append-nil xs)

pub replace_prefix_self : (old new : List ℕ) → replace_prefix old new old ≡ new
replace_prefix_self old new = rw (drop-all old) (append-nil new)

-- A node that keeps its path keeps those below it where they are.
pub replace_prefix_same :
    (old path : List ℕ) → has_prefix path old ≡ true → replace_prefix old old path ≡ path
unfolding has_prefix
replace_prefix_same [] path h = refl
replace_prefix_same (b ∷ old) [] h = absurd (ground arith)
replace_prefix_same (b ∷ old) (a ∷ path) h = ground (arith, replace_prefix_same old path)

length-append : (xs ys : List ℕ) → length (xs ++ ys) ≡ length xs + length ys
length-append [] ys = omega arith
length-append (x ∷ xs) ys = omega (arith, length-append xs ys)

length-drop : (n : ℕ) (xs : List ℕ) → length (drop n xs) ≡ length xs - n
length-drop zero xs = omega arith
length-drop (suc n) [] = omega arith
length-drop (suc n) (x ∷ xs) = omega (arith, length-drop n xs)

shifted_depth :
    (a b n m : ℕ) → suc b ≤ n → m ≡ suc a + (n - suc b) → pos n +ℤ sub_ℤ (pos a) (pos b) ≡ pos m
unfolding ◌+ℤ◌ sub_ℤ
shifted_depth a b n m h e = ground arith

-- The depth of a node that is carried along is the length of its new path.
pub depth-replace_prefix :
    (old new path : List ℕ) (i : ℕ)
    → has_prefix path (old ++ (i ∷ [])) ≡ true
    → pos (length path) +ℤ sub_ℤ (pos (length new)) (pos (length old))
      ≡ pos (length (replace_prefix (old ++ (i ∷ [])) (new ++ (i ∷ [])) path))
depth-replace_prefix old new path i h =
    let o = old ++ (i ∷ []) in
    let fits = has_prefix-length path o h in
    let sized = length-append (new ++ (i ∷ [])) (drop (length o) path) in
    shifted_depth (length new) (length old) (length path) _ (omega (arith, fits, length-snoc old i))
      (omega (arith, sized, length-drop (length o) path, length-snoc new i, length-snoc old i))

pub same_path-eq : (a b : List ℕ) → same_path a b ≡ true → a ≡ b
same_path-eq [] [] h = refl
same_path-eq [] (j ∷ js) h = absurd (ground arith)
same_path-eq (i ∷ is) [] h = absurd (ground arith)
same_path-eq (i ∷ is) (j ∷ js) h = ground (arith, same_path-eq is js)
