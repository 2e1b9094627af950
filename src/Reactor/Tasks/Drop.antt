-- ===== src/Reactor/Tasks/Drop.antt =====
-- The end of the reactor's tasks: which references go.
use rust_fumio.Prelude.{
  ℕ, ◌+◌, ◌≤◌, ◌≡◌, refl, ◌∙◌, List, [], ◌∷◌, some, has, if◌then◌else◌, arith, IsDistinct, ◌∈◌,
}
use rust_fumio.Reactor.Tasks.Laws.{IsTasks, held}
use rust_fumio.Reactor.Tasks.Cleanup.{cleanup_tasks-Cleaned}
use rust_fumio.Reactor.Tasks.{Tasks, release, release_all, drop_tasks}

release_all-refs :
    (ts : List ℕ) (s : Tasks) (c : ℕ)
    → IsDistinct ts
    → ((d : ℕ) → d ∈ ts → 1 ≤ s.refs d)
    → (release_all ts s).refs c + (if has c ts then 1 else 0) ≡ s.refs c
unfolding release_all
release_all-refs [] s c d own = omega arith
release_all-refs (t ∷ ts) s c d own =
    let rest = release_all-refs ts (release t s) c d.1 (λ e i. ground (arith, own e, d.0)) in
    ground (arith, rest, own t, d.0)

release_all-lists :
    (ts : List ℕ) (s : Tasks)
    → ((release_all ts s).list ≡ s.list) × ((release_all ts s).local_list ≡ [])
unfolding release_all
release_all-lists [] s = (refl, refl)
release_all-lists (t ∷ ts) s = release_all-lists ts (release t s)

-- Dropping tasks whose state words, lists and references agree fails no assertion, leaves both lists
-- empty, and drops exactly the references that the lists held: every other reference stays.
pub drop_tasks-refs :
    (s : Tasks)
    → IsTasks s
    → (after : Tasks) × (drop_tasks s ≡ some after)
      × ((after.list ≡ [])
          × ((after.local_list ≡ []) × ((c : ℕ) → after.refs c + held c s ≡ s.refs c)))
unfolding drop_tasks
drop_tasks-refs s v =
    let k = cleanup_tasks-Cleaned s v in
    let s' = k.after in
    let (same, empty) = release_all-lists s'.local_list s' in
    (
      release_all s'.local_list s',
      rw (k.result, drop_tasks) refl,
      (
        same ∙ k.emptied,
        (
          empty,
          λ c.
              let rest =
                release_all-refs s'.local_list s' c (k.agree).local_distinct
                  (λ d i. ground (arith, (k.agree).owned d)) in
              ground (arith, rest, k.balance c, (k.agree).owned c, k.emptied),
        ),
      ),
    )
