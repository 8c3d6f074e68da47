-- ===== src/Task/Lock/Rows.antt =====
-- The version of a task as a lock: while it stands, nothing that matters has changed.
use etask.Base.{
  ℕ, suc, ◌+◌, ◌≤◌, ◌<◌, Member, inl, inr, ◌≡◌, refl, ap, ◌∙◌, Bool, true, false, List, [], ◌∷◌,
  ◌++◌, arith, if◌then◌else◌, update_where, keep_where,
}
use etask.Domain.Task.{Task}

-- A row keeps its identity and its version never falls; while the version stands, all but the
-- mode of the last dispatch and the time of the last write are as they were.
pub record Locked (x y : Task) : Type 0 where
  pub same_id : y.id ≡ x.id
  pub same_tenant : y.tenant_id ≡ x.tenant_id
  pub version_grows : x.version ≤ y.version
  pub version_locks :
      y.version ≡ x.version → y ≡ record x { exec_mode = y.exec_mode; utime = y.utime }

pub Locked-refl : (x : Task) → Locked x x
Locked-refl x = record {
  same_id = refl;
  same_tenant = refl;
  version_grows = omega arith;
  version_locks = λ _. refl;
}

relabel :
    (x y z : Task)
    → y ≡ record x { exec_mode = y.exec_mode; utime = y.utime }
    → z ≡ record y { exec_mode = z.exec_mode; utime = z.utime }
    → z ≡ record x { exec_mode = z.exec_mode; utime = z.utime }
relabel x y z p q = q ∙ ap (λ (v : Task). record v { exec_mode = z.exec_mode; utime = z.utime }) p

pub Locked-trans : (x y z : Task) → Locked x y → Locked y z → Locked x z
Locked-trans x y z a b = record {
  same_id = b.same_id ∙ a.same_id;
  same_tenant = b.same_tenant ∙ a.same_tenant;
  version_grows = omega (arith, a.version_grows, b.version_grows);
  version_locks = λ e.
      relabel x y z (a.version_locks (omega (arith, a.version_grows, b.version_grows)))
        (b.version_locks (omega (arith, a.version_grows, b.version_grows)));
}

-- The ids of a table rise from `lo` on and stay below `hi`, as AUTO_INCREMENT gives them out.
abbrev pub KeyedTasks : ℕ → ℕ → List Task → Type 0
KeyedTasks lo hi [] = lo ≤ hi
KeyedTasks lo hi (t ∷ ts) = (lo ≤ t.id) × KeyedTasks (suc t.id) hi ts

-- The table: rows stay locked in their places, some are deleted, and new ones, whose ids are as
-- new, come at the end. The next id to give out goes from `m` to `n`.
pub data Kept (m n : ℕ) : List Task → List Task → Type 0 where
  fresh : (ys : List Task) → KeyedTasks m n ys → Kept m n [] ys
  kept : {x y : Task} {xs ys : List Task} → Locked x y → Kept m n xs ys → Kept m n (x ∷ xs) (y ∷ ys)
  deleted : {x : Task} {xs ys : List Task} → Kept m n xs ys → Kept m n (x ∷ xs) ys

pub Kept-refl : (n : ℕ) (xs : List Task) → Kept n n xs xs
Kept-refl n [] = fresh [] (omega arith)
Kept-refl n (x ∷ xs) = kept (Locked-refl x) (Kept-refl n xs)

KeyedTasks-weaken : (a b n : ℕ) (xs : List Task) → a ≤ b → KeyedTasks b n xs → KeyedTasks a n xs
KeyedTasks-weaken a b n [] h k = omega arith
KeyedTasks-weaken a b n (x ∷ xs) h k = (omega (arith, k.0), k.1)

-- Keys that are proper stay so.
pub Kept-KeyedTasks :
    (a m n : ℕ) (xs ys : List Task) → KeyedTasks a m xs → Kept m n xs ys → KeyedTasks a n ys
Kept-KeyedTasks a m n [] ys k (fresh _ h) = KeyedTasks-weaken a m n ys k h
Kept-KeyedTasks a m n (x ∷ xs) (y ∷ ys) k (kept l h) =
    (omega (arith, l.same_id, k.0), rw l.same_id (Kept-KeyedTasks (suc x.id) m n xs ys k.1 h))
Kept-KeyedTasks a m n (x ∷ xs) ys k (deleted h) =
    KeyedTasks-weaken a (suc x.id) n ys (omega (arith, k.0))
      (Kept-KeyedTasks (suc x.id) m n xs ys k.1 h)

pub Kept-trans :
    (l m n : ℕ) {xs ys zs : List Task} → Kept l m xs ys → Kept m n ys zs → Kept l n xs zs
Kept-trans l m n (fresh ys k) q = fresh _ (Kept-KeyedTasks l m n ys _ k q)
Kept-trans l m n (kept {x = x} {y = y} a p) (kept {y = z} b q) =
    kept (Locked-trans x y z a b) (Kept-trans l m n p q)
Kept-trans l m n (kept a p) (deleted q) = deleted (Kept-trans l m n p q)
Kept-trans l m n (deleted p) q = deleted (Kept-trans l m n p q)

pub Kept-append :
    (n : ℕ) (xs : List Task) (y : Task) → y.id ≡ n → Kept n (suc n) xs (xs ++ (y ∷ []))
Kept-append n [] y e = fresh (y ∷ []) (omega arith, omega arith)
Kept-append n (x ∷ xs) y e = kept (Locked-refl x) (Kept-append n xs y e)

Kept-keep_cons :
    (n : ℕ) (b : Bool) (x : Task) (xs ys : List Task)
    → Kept n n xs ys
    → Kept n n (x ∷ xs) (if b then x ∷ ys else ys)
Kept-keep_cons n true x xs ys k = kept (Locked-refl x) k
Kept-keep_cons n false x xs ys k = deleted k

pub Kept-keep_where : (n : ℕ) (p : Task → Bool) (xs : List Task) → Kept n n xs (keep_where p xs)
Kept-keep_where n p [] = Kept-refl n []
Kept-keep_where n p (x ∷ xs) =
    Kept-keep_cons n (p x) x xs (keep_where p xs) (Kept-keep_where n p xs)

KeyedTasks-above : (a n : ℕ) (xs : List Task) → KeyedTasks a n xs → a ≤ n
KeyedTasks-above a n [] k = k
KeyedTasks-above a n (x ∷ xs) k = omega (arith, k.0, KeyedTasks-above (suc x.id) n xs k.1)

pub KeyedTasks-bound :
    (a n : ℕ) (t : Task) (xs : List Task)
    → KeyedTasks a n xs
    → Member t xs
    → (a ≤ t.id) × (t.id < n)
KeyedTasks-bound a n t [] k m = elim m [ ]
KeyedTasks-bound a n t (x ∷ xs) k (inl p) = rw p (k.0, KeyedTasks-above (suc x.id) n xs k.1)
KeyedTasks-bound a n t (x ∷ xs) k (inr m) =
    let b = KeyedTasks-bound (suc x.id) n t xs k.1 m in (omega (arith, b.0, k.0), b.1)

id_bound : (a n : ℕ) (t : Task) (xs : List Task) → KeyedTasks a n xs → Member t xs → a ≤ t.id
id_bound a n t xs k h = (KeyedTasks-bound a n t xs k h).0

pub KeyedTasks-unique :
    (a n : ℕ) (t t' : Task) (xs : List Task)
    → KeyedTasks a n xs
    → Member t xs
    → Member t' xs
    → t.id ≡ t'.id
    → t ≡ t'
KeyedTasks-unique a n t t' [] k m m' h = elim m [ ]
KeyedTasks-unique a n t t' (x ∷ xs) k (inl p) (inl q) h = cc
KeyedTasks-unique a n t t' (x ∷ xs) k (inl p) (inr q) h =
    absurd (omega (arith, id_bound (suc x.id) n t' xs k.1 q, ap (λ (v : Task). v.id) p))
KeyedTasks-unique a n t t' (x ∷ xs) k (inr p) (inl q) h =
    absurd (omega (arith, id_bound (suc x.id) n t xs k.1 p, ap (λ (v : Task). v.id) q))
KeyedTasks-unique a n t t' (x ∷ xs) k (inr p) (inr q) h =
    KeyedTasks-unique (suc x.id) n t t' xs k.1 p q h

-- Rows with one id, before and after, are the row and what became of it.
pub Kept-Locked :
    (a m n : ℕ) (t u : Task) (xs ys : List Task)
    → KeyedTasks a m xs
    → Kept m n xs ys
    → Member t xs
    → Member u ys
    → t.id ≡ u.id
    → Locked t u
Kept-Locked a m n t u [] ys k h mt mu e = elim mt [ ]
Kept-Locked a m n t u (x ∷ xs) (y ∷ ys) k (kept l h) (inl p) (inl q) e = rw (p, q) l
Kept-Locked a m n t u (x ∷ xs) (y ∷ ys) k (kept l h) (inl p) (inr q) e =
    let b = id_bound (suc x.id) n u ys (Kept-KeyedTasks (suc x.id) m n xs ys k.1 h) q in
    absurd (omega (arith, b, ap (λ (v : Task). v.id) p))
Kept-Locked a m n t u (x ∷ xs) (y ∷ ys) k (kept l h) (inr p) (inl q) e =
    let b = id_bound (suc x.id) m t xs k.1 p in
    absurd (omega (arith, b, l.same_id, ap (λ (v : Task). v.id) q))
Kept-Locked a m n t u (x ∷ xs) (y ∷ ys) k (kept l h) (inr p) (inr q) e =
    Kept-Locked (suc x.id) m n t u xs ys k.1 h p q e
Kept-Locked a m n t u (x ∷ xs) ys k (deleted h) (inl p) q e =
    let b = id_bound (suc x.id) n u ys (Kept-KeyedTasks (suc x.id) m n xs ys k.1 h) q in
    absurd (omega (arith, b, ap (λ (v : Task). v.id) p))
Kept-Locked a m n t u (x ∷ xs) ys k (deleted h) (inr p) q e =
    Kept-Locked (suc x.id) m n t u xs ys k.1 h p q e

-- A write of a task is orderly if it raises the version by one and keeps the identity.
pub record Bumps (f : Task → Task) : Type 0 where
  pub keeps_id : (x : Task) → (f x).id ≡ x.id
  pub keeps_tenant : (x : Task) → (f x).tenant_id ≡ x.tenant_id
  pub raises : (x : Task) → (f x).version ≡ x.version + 1

pub Bumps-Locked : (f : Task → Task) → Bumps f → (x : Task) → Locked x (f x)
Bumps-Locked f b x = record {
  same_id = b.keeps_id x;
  same_tenant = b.keeps_tenant x;
  version_grows = omega (arith, b.raises x);
  version_locks = λ e. absurd (omega (arith, b.raises x));
}

pub Kept-update_where :
    (n : ℕ) (p : Task → Bool) (f : Task → Task)
    → ((x : Task) → Locked x (f x))
    → (xs : List Task) → Kept n n xs (update_where p f xs)
Kept-update_where n p f h [] = Kept-refl n []
Kept-update_where n p f h (x ∷ xs) = kept (go (p x)) (Kept-update_where n p f h xs)
  where
    go : (b : Bool) → Locked x (if b then f x else x)
    go true = h x
    go false = Locked-refl x
