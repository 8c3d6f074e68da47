-- ===== src/Domain/Params.antt =====
-- The parameters of a run (internal/domain/task_execution.go): which of two values for a key wins.
use etask.Base.{
  String, ◌≡◌, refl, sym, subst, true, false, [], ◌∷◌, Option, none, some, str_eq, str_eq_iff,
  if◌then◌else◌, Bool-cases, inl, inr,
}
use etask.Domain.Execution.{
  Params, put_param, get_param, merge_params, merge_task_schedule_params, grpc_params,
  grpc_params_of, or_empty, TaskExecution,
}

abbrev pub or_else : Option String → Option String → Option String
or_else (some v) old = some v
or_else none old = old

-- A map holds a key once.
abbrev pub HasDistinctKeys : Params → Type 0
HasDistinctKeys [] = Unit
HasDistinctKeys ((k, v) ∷ m) = (get_param k m ≡ none) × HasDistinctKeys m

str_eq-same : (a b : String) → str_eq a b ≡ true → a ≡ b
str_eq-same a b h = (str_eq_iff a b).0 h

str_eq_self : (a : String) → str_eq a a ≡ true
str_eq_self a = (str_eq_iff a a).1 refl

get_param-put_param :
    (k j v : String) (m : Params)
    → get_param k (put_param j v m) ≡ (if str_eq j k then some v else get_param k m)
unfolding get_param put_param
get_param-put_param k j v [] = refl
get_param-put_param k j v ((i, u) ∷ m) = elim (Bool-cases (str_eq i j)) [
  | inl e ↦ elim (Bool-cases (str_eq j k)) [
    | inl f ↦ rw (e, f) refl
    | inr f ↦ rw (e, f, subst (λ a. str_eq a k ≡ false) (sym (str_eq-same i j e)) f) refl
  ]
  | inr e ↦
      let rest = get_param-put_param k j v m in
      rw (e, rest)
        (elim (Bool-cases (str_eq j k)) [
          | inl f ↦ rw (f, subst (λ b. str_eq i b ≡ false) (str_eq-same j k f) e) refl
          | inr f ↦ rw f refl
        ])
]

-- Merging: the source wins, and what it does not name stays.
get_param-merge_params :
    (k : String) (target source : Params)
    → HasDistinctKeys source
    → get_param k (merge_params target source) ≡ or_else (get_param k source) (get_param k target)
unfolding get_param merge_params
get_param-merge_params k target [] d = refl
get_param-merge_params k target ((j, v) ∷ source) d =
    let rest = get_param-merge_params k (put_param j v target) source d.1 in
    let put = get_param-put_param k j v target in
    elim (Bool-cases (str_eq j k)) [
      | inl e ↦
          rw (e, rest, put)
            (rw (subst (λ a. get_param a source ≡ none) (str_eq-same j k e) d.0, e) refl)
      | inr e ↦ rw (e, rest, put) (rw e refl)
    ]

or_nothing : (k : String) (o : Option String) → or_else o (get_param k []) ≡ o
unfolding get_param
or_nothing k none = refl
or_nothing k (some v) = refl

merged :
    (k : String) (current : Option Params) (requested : Params)
    → HasDistinctKeys requested
    → get_param k (or_empty (merge_task_schedule_params current requested))
      ≡ or_else (get_param k requested) (get_param k (or_empty current))
unfolding merge_task_schedule_params get_param
merged k none [] d = refl
merged k (some m) [] d = refl
merged k none (p ∷ ps) d = sym (or_nothing k (get_param k (p ∷ ps)))
merged k (some []) (p ∷ ps) d = sym (or_nothing k (get_param k (p ∷ ps)))
merged k (some (q ∷ qs)) (p ∷ ps) d = get_param-merge_params k (q ∷ qs) (p ∷ ps) d

-- What an executor is sent for a key: the value of the schedule parameters if they name it, else
-- that of the task's own gRPC parameters; and a reschedule request overrides, key by key, the
-- schedule parameters that the execution had.
pub params-precedence :
    (e : TaskExecution) (requested : Params) (k : String)
    → HasDistinctKeys (grpc_params_of e.grpc_config)
    → HasDistinctKeys (or_empty e.schedule_params)
    → HasDistinctKeys requested
    → (get_param k (grpc_params e)
        ≡ or_else
            (get_param k (or_empty e.schedule_params))
            (get_param k (grpc_params_of e.grpc_config)))
      × (get_param k (or_empty (merge_task_schedule_params e.schedule_params requested))
          ≡ or_else (get_param k requested) (get_param k (or_empty e.schedule_params)))
unfolding grpc_params
params-precedence e requested k d1 d2 d3 = (
  rw
      (
        get_param-merge_params k (merge_params [] (grpc_params_of e.grpc_config))
            (or_empty e.schedule_params) d2,
        get_param-merge_params k [] (grpc_params_of e.grpc_config) d1,
        or_nothing k (get_param k (grpc_params_of e.grpc_config)),
      )
      refl,
  merged k e.schedule_params requested d3,
)
