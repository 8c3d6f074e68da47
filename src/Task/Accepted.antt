-- ===== src/Task/Accepted.antt =====
-- The overrides that a start accepts are those that the rules of the task allow.
use etask.Base.{
  ℕ, String, ◌≡◌, ◌↔◌, refl, sym, ap, ◌∙◌, arith, true, not, ◌||◌, List, [], ◌∷◌, Option, none,
  some, inl, inr, ltb, leb, ◌==◌, str_eq_iff, Option-cases, length, byte_count,
}
use etask.Errs.{ok}
use etask.Store.Reading.{ok-same}
use etask.Domain.Codebook.Checks.{◌>>=◌, is_empty}
use etask.Domain.Execution.{Params}
use etask.Domain.Overrides.{
  TaskParamInputMode, manual, select, other_input, TaskParamSelectConfig, TaskParamOverrideRule,
  RunParamOverride,
}
use etask.Task.Overrides.{
  contains_mode, rule_for, validate_selected_values, join, serialize_select, serialize_mode,
  serialize_by, validate_and_serialize_overrides,
}
use etask.Task.Accepting.{
  require-ok, ok-require, then-ok, IsChoice, validate_selected_values_sound,
  validate_selected_values_complete,
}

-- The text that an override gives: what was typed in, or the chosen options of the rule.
pub data IsContent (rule : TaskParamOverrideRule) (o : RunParamOverride) (value : String)
    : Type 0 where
  by_hand :
      o.mode ≡ manual
      → leb (byte_count o.value) 1024 ≡ true
      → o.values ≡ []
      → value ≡ o.value
      → IsContent rule o value
  by_choice :
      (config : TaskParamSelectConfig)
      → o.mode ≡ select
      → rule.select_config ≡ some config
      → o.value ≡ ""
      → IsChoice config o.values
      → value ≡ join o.values
      → IsContent rule o value

pub record IsAccepted (rules : List TaskParamOverrideRule) (key : String) (o : RunParamOverride)
    (value : String) : Type 0 where
  pub rule : TaskParamOverrideRule
  pub its_rule : rule_for key rules ≡ some rule
  pub allowed : contains_mode rule.allowed_modes o.mode ≡ true
  pub content : IsContent rule o value

-- Each override is accepted, and gives the entry of its key.
abbrev pub AllAccepted :
    List TaskParamOverrideRule → List (String × RunParamOverride) → Params → Type 0
AllAccepted rules [] m = m ≡ []
AllAccepted rules ((key, o) ∷ os) m =
    (value : String) × (rest : Params) × (m ≡ (key, value) ∷ rest)
    × IsAccepted rules key o value
    × AllAccepted rules os rest

short_text :
    (n : ℕ) (vs : List String)
    → not (ltb 1024 n || not (length vs == 0)) ≡ true
    → (leb n 1024 ≡ true) × (vs ≡ [])
short_text n [] h = (ground arith, refl)
short_text n (v ∷ vs) h = absurd (ground arith)

text_short :
    (n : ℕ) (vs : List String)
    → leb n 1024 ≡ true
    → vs ≡ []
    → not (ltb 1024 n || not (length vs == 0)) ≡ true
text_short n [] h e = ground arith
text_short n (v ∷ vs) h e = absurd (ground arith)

module _ (rule : TaskParamOverrideRule) (o : RunParamOverride) (value : String) where
  serialize_select_sound :
      (c : Option TaskParamSelectConfig)
      → o.mode ≡ select
      → rule.select_config ≡ c
      → serialize_select c o ≡ ok value
      → IsContent rule o value
  unfolding serialize_select
  serialize_select_sound none is e h = absurd (ground arith)
  serialize_select_sound (some config) is e h =
      let (no_text, h1) = require-ok (is_empty o.value) _ value h in
      let (values, passes, joined) =
        then-ok (validate_selected_values config o.values) (λ vs. ok (join vs)) value h1 in
      let (choice, same) = validate_selected_values_sound config o.values values passes in
      by_choice config is e ((str_eq_iff o.value "").0 no_text) choice
        (sym (ok-same (join values) value joined) ∙ ap join same)

  serialize_mode_sound :
      (mode : TaskParamInputMode)
      → o.mode ≡ mode
      → serialize_mode rule mode o ≡ ok value
      → IsContent rule o value
  serialize_mode_sound manual is h =
      let (fits, h1) = require-ok _ _ value h in
      let (short, no_values) = short_text (byte_count o.value) o.values fits in
      by_hand is short no_values (sym (ok-same o.value value h1))
  serialize_mode_sound select is h = serialize_select_sound rule.select_config is refl h
  serialize_mode_sound (other_input s) is h = absurd (ground arith)

  serialize_mode_complete : IsContent rule o value → serialize_mode rule o.mode o ≡ ok value
  unfolding serialize_select
  serialize_mode_complete (by_hand is short no_values same) =
      rw is (
        ok-require _ _ (text_short (byte_count o.value) o.values short no_values)
        ∙ ap ok (sym same))
  serialize_mode_complete (by_choice config is e no_text choice same) = rw is (
      rw e (
        ok-require (is_empty o.value) _ ((str_eq_iff o.value "").1 no_text)
        ∙ ap (λ r. r >>= λ vs. ok (join vs))
            (validate_selected_values_complete config o.values choice)
        ∙ ap ok (sym same)))

module _ (rules : List TaskParamOverrideRule) (key : String) (o : RunParamOverride)
    (value : String) where
  serialize_by_sound : serialize_by (rule_for key rules) o ≡ ok value → IsAccepted rules key o value
  unfolding serialize_by
  serialize_by_sound h = elim (Option-cases (rule_for key rules)) [
    | inl e ↦ absurd (ground arith)
    | inr (rule, e) ↦
        let (allowed, h1) =
          require-ok (contains_mode rule.allowed_modes o.mode) _ value (rw e at h) in
        record {
          rule = rule;
          its_rule = e;
          allowed = allowed;
          content = serialize_mode_sound rule o value o.mode refl h1;
        }
  ]

  serialize_by_complete :
      IsAccepted rules key o value → serialize_by (rule_for key rules) o ≡ ok value
  unfolding serialize_by
  serialize_by_complete a =
      rw (a.its_rule) (ok-require _ _ a.allowed ∙ serialize_mode_complete a.rule o value a.content)

serialize-AllAccepted :
    (rules : List TaskParamOverrideRule) (os : List (String × RunParamOverride)) (m : Params)
    → validate_and_serialize_overrides rules os ≡ ok m
    → AllAccepted rules os m
unfolding validate_and_serialize_overrides
serialize-AllAccepted rules [] m h = sym (ok-same [] m h)
serialize-AllAccepted rules ((key, o) ∷ os) m h =
    let (value, first, h1) = then-ok (serialize_by (rule_for key rules) o) _ m h in
    let (rest, others, whole) = then-ok (validate_and_serialize_overrides rules os) _ m h1 in
    (
      value,
      rest,
      sym (ok-same _ m whole),
      serialize_by_sound rules key o value first,
      serialize-AllAccepted rules os rest others,
    )

AllAccepted-serialize :
    (rules : List TaskParamOverrideRule) (os : List (String × RunParamOverride)) (m : Params)
    → AllAccepted rules os m
    → validate_and_serialize_overrides rules os ≡ ok m
unfolding validate_and_serialize_overrides
AllAccepted-serialize rules [] m h = ap ok (sym h)
AllAccepted-serialize rules ((key, o) ∷ os) m (value, rest, whole, one, others) =
    ap (λ r. r >>= λ v. (validate_and_serialize_overrides rules os >>= λ vs. ok ((key, v) ∷ vs)))
      (serialize_by_complete rules key o value one)
    ∙ ap (λ r. r >>= λ vs. ok ((key, value) ∷ vs)) (AllAccepted-serialize rules os rest others)
    ∙ ap ok (sym whole)

-- The overrides of a start are taken, and give the parameters `m`, exactly if each of them is
-- accepted and gives the entry of its key in `m`: the last rule of its key allows its mode, and its
-- text is what was typed in, of at most 1024 bytes and without chosen values, or else the chosen
-- values joined by commas, which are options of the rule, each once, and only one where the rule
-- does not allow more.
pub validate_and_serialize_overrides-exact :
    (rules : List TaskParamOverrideRule) (os : List (String × RunParamOverride)) (m : Params)
    → (validate_and_serialize_overrides rules os ≡ ok m) ↔ AllAccepted rules os m
validate_and_serialize_overrides-exact rules os m =
    (serialize-AllAccepted rules os m, AllAccepted-serialize rules os m)
