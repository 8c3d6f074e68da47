-- ===== src/Task/Accepting.antt =====
-- Which overrides of parameters a start accepts.
use etask.Base.{
  ℕ, String, ◌≡◌, ◌⊎◌, refl, sym, ap, ◌∙◌, subst, arith, Bool, true, false, not, ◌&&◌, ◌||◌, List,
  [], ◌∷◌, inl, inr, ◌==◌, str_eq, str_eq_iff, Bool-cases, Member, length,
}
use etask.Errs.{Result, ok, err}
use etask.Store.Reading.{ok-same}
use etask.Domain.Codebook.Checks.{◌>>=◌, ◌>>◌, require}
use etask.Domain.Overrides.{TaskParamSelectConfig}
use etask.Task.Overrides.{contains_text, option_values, check_selected, validate_selected_values}

pub require-ok :
    {B : Type 0} (t : Bool) (k : Result B) (b : B)
    → (require t >> k) ≡ ok b
    → (t ≡ true) × (k ≡ ok b)
require-ok true k b h = (refl, h)
require-ok false k b h = absurd (ground arith)

pub ok-require : {B : Type 0} (t : Bool) (k : Result B) → t ≡ true → (require t >> k) ≡ k
ok-require t k e = rw e refl

pub then-ok :
    {A B : Type 0} (r : Result A) (k : A → Result B) (b : B)
    → (r >>= k) ≡ ok b
    → (a : A) × (r ≡ ok a) × (k a ≡ ok b)
then-ok (ok a) k b h = (a, refl, h)
then-ok (err e) k b h = absurd (ground arith)

contains_text-Member : (v : String) (ts : List String) → contains_text v ts ≡ true → Member v ts
contains_text-Member v [] h = absurd (ground arith)
contains_text-Member v (t ∷ ts) h = elim (Bool-cases (str_eq v t)) [
  | inl e ↦ inl ((str_eq_iff v t).0 e)
  | inr e ↦ inr (contains_text-Member v ts (rw e at h))
]

Member-contains_text : (v : String) (ts : List String) → Member v ts → contains_text v ts ≡ true
Member-contains_text v [] m = elim m [ ]
Member-contains_text v (t ∷ ts) (inl e) = rw ((str_eq_iff v t).1 e) refl
Member-contains_text v (t ∷ ts) (inr m) =
    let there = Member-contains_text v ts m in
    elim (Bool-cases (str_eq v t)) [ inl e ↦ rw e refl | inr e ↦ rw e there ]

-- No text stands in the list twice.
abbrev pub IsDistinct : List String → Type 0
IsDistinct [] = Unit
IsDistinct (v ∷ vs) = (Member v vs → ⊥) × IsDistinct vs

abbrev pub AllIn : List String → List String → Type 0
AllIn options vs = (v : String) → Member v vs → Member v options

abbrev NoneIn : List String → List String → Type 0
NoneIn seen vs = (v : String) → Member v vs → Member v seen → ⊥

not_in : (v : String) (seen : List String) → not (contains_text v seen) ≡ true → Member v seen → ⊥
not_in v seen h m = absurd (ground (arith, Member-contains_text v seen m))

in_none :
    (v : String) (seen : List String) → (Member v seen → ⊥) → not (contains_text v seen) ≡ true
in_none v seen h = elim (Bool-cases (contains_text v seen)) [
  | inl e ↦ elim (h (contains_text-Member v seen e)) [ ]
  | inr e ↦ rw e refl
]

check_selected_sound :
    (options seen vs : List String)
    → check_selected options seen vs ≡ ok tt
    → AllIn options vs × (IsDistinct vs × NoneIn seen vs)
check_selected_sound options seen [] h = (λ v m. elim m [ ], (tt, λ v m. elim m [ ]))
check_selected_sound options seen (v ∷ vs) h =
    let (known, h1) = require-ok (contains_text v options) _ tt h in
    let (fresh, h2) = require-ok (not (contains_text v seen)) _ tt h1 in
    let ih = check_selected_sound options (v ∷ seen) vs h2 in
    (
      λ u m. elim m [
        | inl e ↦ subst (λ t. Member t options) (sym e) (contains_text-Member v options known)
        | inr k ↦ ih.0 u k
      ],
      (
        (λ m. ih.1.1 v m (inl refl), ih.1.0),
        λ u m old. elim m [
          | inl e ↦ not_in v seen fresh (subst (λ t. Member t seen) e old)
          | inr k ↦ ih.1.1 u k (inr old)
        ],
      ),
    )

check_selected_complete :
    (options seen vs : List String)
    → AllIn options vs
    → IsDistinct vs
    → NoneIn seen vs
    → check_selected options seen vs ≡ ok tt
check_selected_complete options seen [] all_in distinct none_in = refl
check_selected_complete options seen (v ∷ vs) all_in distinct none_in =
    ok-require (contains_text v options) _ (Member-contains_text v options (all_in v (inl refl)))
    ∙ ok-require (not (contains_text v seen)) _ (in_none v seen (none_in v (inl refl)))
    ∙ check_selected_complete options (v ∷ seen) vs (λ u m. all_in u (inr m)) distinct.1
        (λ u m old. elim old [
          | inl e ↦ distinct.0 (subst (λ t. Member t vs) e m)
          | inr k ↦ none_in u (inr m) k
        ])

count_of :
    (multiple : Bool) (n : ℕ)
    → not (n == 0 || (not multiple && not (n == 1))) ≡ true
    → ((n == 0) ≡ false) × ((multiple ≡ true) ⊎ (n ≡ 1))
count_of true n h = (ground arith, inl refl)
count_of false n h = (ground arith, inr (ground arith))

of_count :
    (multiple : Bool) (n : ℕ)
    → (n == 0) ≡ false
    → (multiple ≡ true) ⊎ (n ≡ 1)
    → not (n == 0 || (not multiple && not (n == 1))) ≡ true
of_count true n h c = ground arith
of_count false n h (inl e) = absurd (ground arith)
of_count false n h (inr e) = ground arith

-- What a choice of values must be: some options, each once, and only one where no more are allowed.
pub record IsChoice (config : TaskParamSelectConfig) (values : List String) : Type 0 where
  pub some_value : (length values == 0) ≡ false
  pub counted : (config.multiple ≡ true) ⊎ (length values ≡ 1)
  pub options : AllIn (option_values config.options) values
  pub distinct : IsDistinct values

pub validate_selected_values_sound :
    (config : TaskParamSelectConfig) (values result : List String)
    → validate_selected_values config values ≡ ok result
    → IsChoice config values × (result ≡ values)
unfolding validate_selected_values
validate_selected_values_sound config values result h =
    let (counted, h1) = require-ok _ _ result h in
    let (u, passes, same) =
      then-ok (check_selected (option_values config.options) [] values) (λ _. ok values) result
        h1 in
    let sound = check_selected_sound (option_values config.options) [] values passes in
    (
      record {
        some_value = (count_of config.multiple (length values) counted).0;
        counted = (count_of config.multiple (length values) counted).1;
        options = sound.0;
        distinct = sound.1.0;
      },
      sym (ok-same values result same),
    )

pub validate_selected_values_complete :
    (config : TaskParamSelectConfig) (values : List String)
    → IsChoice config values
    → validate_selected_values config values ≡ ok values
unfolding validate_selected_values
validate_selected_values_complete config values choice =
    let passes =
      check_selected_complete (option_values config.options) [] values choice.options
        choice.distinct (λ u m old. old) in
    ok-require _ _ (of_count config.multiple (length values) choice.some_value choice.counted)
    ∙ ap (λ r. r >> ok values) passes
