-- ===== src/Pool/Names.antt =====
-- Names of handlers that are normalized stay as they are.
use etask.Base.{
  String, ◌≡◌, refl, ap, ◌∙◌, inl, inr, str_eq, if◌then◌else◌, Bool-cases, trim_space,
  trim_space-trim_space,
}
use etask.Domain.Pool.{normalize_handler_name}

abbrev named_by : String → String
named_by name = if str_eq name "*" then "" else name

normalized_empty : normalize_handler_name "" ≡ ""
unfolding normalize_handler_name trim_space
normalized_empty = refl

normalized_trimmed : (s : String) → normalize_handler_name (trim_space s) ≡ named_by (trim_space s)
unfolding normalize_handler_name
normalized_trimmed s = ap named_by (trim_space-trim_space s)

pub normalize-normalize :
    (s : String) → normalize_handler_name (normalize_handler_name s) ≡ normalize_handler_name s
unfolding normalize_handler_name
normalize-normalize s = elim (Bool-cases (str_eq (trim_space s) "*")) [
  | inl e ↦ rw e normalized_empty
  | inr e ↦ rw e (normalized_trimmed s ∙ rw e refl)
]
