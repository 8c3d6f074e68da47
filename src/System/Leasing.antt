-- ===== src/System/Leasing.antt =====
-- The lease of a task: who gets it, and who may give it back (`Acquire` and `Release` of
-- internal/repository/dao/task.go).
use etask.Base.{
  ℕ, ◌+◌, ◌≡◌, ◌≢◌, refl, sym, ap, ◌∙◌, arith, true, String, Member, ==→eq, update_where-Member,
}
use etask.Errs.{ok, task_preempt_failed}
use etask.Domain.Task.{Task}
use etask.Store.{World}
use etask.Store.Action.{gets, ◌>>=◌}
use etask.Task.Table.{acquire, at_version, acquired_by}
use etask.Task.Lock.Rows.{Bumps-Locked}
use etask.Task.Lock.Statements.{acquired_by-Bumps, acquire-Evolves}
use etask.Task.Lock.Races.{write_and_read-writes}
use etask.System.Runs.{◌⇝◌}
use etask.System.Safety.{IsSound, Evolves-IsSound, version_never_falls, run-IsSound}

at_version-parts :
    (i version : ℕ) (w : World) (x : Task)
    → at_version i version w x ≡ true
    → (x.id ≡ i) × (x.version ≡ version)
at_version-parts i version w x h =
    (==→eq x.id i (ground arith), ==→eq x.version version (ground arith))

pub acquire-writes :
    (i version : ℕ) (node : String) (w : World) (t : Task)
    → IsSound w
    → (acquire i version node w).0 ≡ ok t
    → (x : Task) × Member x w.tasks
      × (x.id ≡ i)
      × (x.version ≡ version)
      × (t ≡ acquired_by node w.now x)
      × Member t (acquire i version node w).1.tasks
unfolding acquire ◌>>=◌ gets
acquire-writes i version node w t sound h =
    let got =
      write_and_read-writes i (at_version i version) (acquired_by node w.now) task_preempt_failed w
        t (λ rest. refl) (λ x p. (at_version-parts i version w x p).0)
        (Bumps-Locked (acquired_by node w.now) (acquired_by-Bumps node w.now)) sound.tasks_keyed
        h in
    let parts = at_version-parts i version w got.0 got.2 in
    let stands =
      update_where-Member (at_version i version w) (acquired_by node w.now) got.0 w.tasks got.1
        got.2 in
    (got.0, got.1, parts.0, parts.1, got.3, rw (got.5, got.3) stands)

-- Once one node has acquired a task at a version, no node ever acquires it at that version again,
-- whatever happens in between.
pub acquire-once :
    (i version : ℕ) (winner loser : String) (w v : World) (t t' : Task)
    → IsSound w
    → (acquire i version winner w).0 ≡ ok t
    → (acquire i version winner w).1 ⇝ v
    → (acquire i version loser v).0 ≢ ok t'
acquire-once i version winner loser w v t t' sound won run again =
    let first = acquire-writes i version winner w t sound won in
    let sound' =
      Evolves-IsSound w (acquire i version winner w).1 sound
        ((acquire-Evolves i version winner).at w) in
    let w' = (acquire i version winner w).1 in
    let second = acquire-writes i version loser v t' (run-IsSound w' v run sound') again in
    let id_kept : t.id ≡ i = ap (λ (x : Task). x.id) first.4 ∙ first.2 in
    let raised : t.version ≡ version + 1 =
      ap (λ (x : Task). x.version) first.4 ∙ ap (λ n. n + 1) first.3 in
    let order =
      version_never_falls w' v run sound' t second.0 first.5 second.1 (id_kept ∙ sym second.2) in
    omega (arith, order, raised, second.3)
