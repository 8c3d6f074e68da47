-- ===== src/Domain/Notification/Rules.antt =====
-- At most one rule of a task is for a status.
use etask.Base.{
  ◌≡◌, ◌↔◌, refl, sym, ap, ◌∙◌, subst, arith, Bool, true, false, not, ◌&&◌, List, [], ◌∷◌, some,
  inl, inr, Bool-cases, Member, first_where, first_where-Member,
}
use etask.Errs.{Result, ok}
use etask.Domain.Status.{ExecutionStatus, same_status, same_status-eq, same_status_self, status_in}
use etask.Domain.Codebook.Checks.{◌>>◌, require}
use etask.Domain.Notification.{
  ExecutionNotificationRule, validate_rule, validate_rules, validate_notification_rules, is_hit,
  enabled_notification_rule,
}

check-ok : (r k : Result (Unit {0})) → (r >> k) ≡ ok tt → (r ≡ ok tt) × (k ≡ ok tt)
check-ok (ok u) k h = (refl, h)
check-ok (Result.err e) k h = absurd (ground arith)

required : (t : Bool) → require t ≡ ok tt → t ≡ true
required true h = refl
required false h = absurd (ground arith)

both_true : (b t : Bool) → b && t ≡ true → (b ≡ true) × (t ≡ true)
both_true true t h = (refl, h)
both_true false t h = absurd (ground arith)

hit_parts :
    (r : ExecutionNotificationRule) (s : ExecutionStatus)
    → is_hit s r ≡ true
    → (r.enabled ≡ true) × (r.trigger_status ≡ s)
hit_parts r s h =
    let (on, at) = both_true r.enabled (same_status r.trigger_status s) h in
    (on, same_status-eq r.trigger_status s at)

parts_hit :
    (r : ExecutionNotificationRule) (s : ExecutionStatus)
    → r.enabled ≡ true
    → r.trigger_status ≡ s
    → is_hit s r ≡ true
parts_hit r s on at = rw on (rw at (same_status_self s))

status_in-seen :
    (s : ExecutionStatus) (seen : List ExecutionStatus) → Member s seen → status_in seen s ≡ true
unfolding status_in
status_in-seen s [] m = elim m [ ]
status_in-seen s (t ∷ ts) (inl e) = rw (sym e) (rw (same_status_self s) refl)
status_in-seen s (t ∷ ts) (inr m) =
    let there = status_in-seen s ts m in
    elim (Bool-cases (same_status s t)) [ inl e ↦ rw e refl | inr e ↦ rw e there ]

-- what the check of the rest says
validate_rules-cons :
    (seen : List ExecutionStatus) (r : ExecutionNotificationRule)
    (rs : List ExecutionNotificationRule)
    → validate_rules seen (r ∷ rs) ≡ ok tt
    → (not (status_in seen r.trigger_status) ≡ true)
      × (validate_rules (r.trigger_status ∷ seen) rs ≡ ok tt)
unfolding validate_rules
validate_rules-cons seen r rs h =
    let (fine, h1) = check-ok (validate_rule r) _ h in
    let (fresh, h2) = check-ok (require (not (status_in seen r.trigger_status))) _ h1 in
    (required _ fresh, h2)

-- No rule that is checked later is for a status that was seen.
later_rules :
    (seen : List ExecutionStatus) (rs : List ExecutionNotificationRule)
    (r : ExecutionNotificationRule)
    → validate_rules seen rs ≡ ok tt
    → Member r rs
    → Member r.trigger_status seen
    → ⊥
later_rules seen [] r h m before = m
later_rules seen (x ∷ rs) r h (inl e) before =
    let there = subst (λ (y : ExecutionNotificationRule). Member y.trigger_status seen) e before in
    let fresh = (validate_rules-cons seen x rs h).0 in
    absurd (ground (arith, status_in-seen x.trigger_status seen there))
later_rules seen (x ∷ rs) r h (inr m) before =
    later_rules (x.trigger_status ∷ seen) rs r (validate_rules-cons seen x rs h).1 m (inr before)

hit_found :
    (seen : List ExecutionStatus) (rs : List ExecutionNotificationRule) (s : ExecutionStatus)
    (r : ExecutionNotificationRule)
    → validate_rules seen rs ≡ ok tt
    → Member r rs
    → is_hit s r ≡ true
    → first_where (is_hit s) rs ≡ some r
hit_found seen [] s r h m hit = elim m [ ]
hit_found seen (x ∷ rs) s r h (inl e) hit =
    let at = subst (λ y. is_hit s y ≡ true) e hit in rw at (ap some (sym e))
hit_found seen (x ∷ rs) s r h (inr m) hit =
    let rest = (validate_rules-cons seen x rs h).1 in
    elim (Bool-cases (is_hit s x)) [
      | inl e ↦
          let same = (hit_parts r s hit).1 ∙ sym (hit_parts x s e).1 in
          elim (later_rules (x.trigger_status ∷ seen) rs r rest m (inl same)) [ ]
      | inr e ↦ rw e (hit_found (x.trigger_status ∷ seen) rs s r rest m hit)
    ]

-- For a task whose notification rules have passed their check, the rule that is looked up for a
-- status is the one enabled rule for it: a rule is found exactly if it is among the rules, enabled,
-- and for this status, wherever it stands.
pub enabled_notification_rule-exact :
    (rules : List ExecutionNotificationRule) (s : ExecutionStatus) (r : ExecutionNotificationRule)
    → validate_notification_rules rules ≡ ok tt
    → (enabled_notification_rule rules s ≡ some r)
      ↔ (Member r rules × (r.enabled ≡ true) × (r.trigger_status ≡ s))
unfolding validate_notification_rules enabled_notification_rule
enabled_notification_rule-exact rules s r h = (
  λ e.
      let (m, hit) = first_where-Member (is_hit s) r rules e in
      let (on, at) = hit_parts r s hit in (m, on, at),
  λ q. hit_found [] rules s r h q.0 (parts_hit r s q.1 q.2),
)
