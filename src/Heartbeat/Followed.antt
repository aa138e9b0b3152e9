-- ===== src/Heartbeat/Followed.antt =====
-- The filter's table knows every heartbeat let through, or a later one of the same key.
use iot_zinx.Shared.{
  ℕ, ◌+◌, ◌-◌, ◌≤◌, ◌<◌, ◌≡◌, ◌⊎◌, refl, sym, ◌∙◌, subst, inl, inr, arith, Bytes, bytes_eq, List,
  ◌∷◌, ◌==◌, Bool-cases, some, All, ltb→lt, nat_beq,
}
use iot_zinx.Shared.Table.{lookup, insert, lookup-insert_self, lookup-insert_ne}
use iot_zinx.Shared.Keys.{IsDistinct, insert-IsDistinct, same_key, other_key}
use iot_zinx.Shared.Sweep.{keys_where, erase_keys, spared, sweep-lookup}
use iot_zinx.Shared.Sizes.{All-map, All-map2, erase_keys-IsDistinct}
use iot_zinx.Heartbeat.Filter.{
  HeartbeatData, HeartbeatFilter, Verdict, new_heartbeat_filter, is_critical_event,
  get_dynamic_interval, heartbeat_key, update_last_heartbeat, count_processed, is_too_soon,
  should_process, reset_stats, set_power_thresholds, set_event_interval, is_old,
  cleanup_old_entries,
}
use iot_zinx.Heartbeat.Runs.{
  FilterRun, logged, event_run, FilterStep, by_event, by_cleanup, by_reset, by_thresholds,
  by_interval, FilterReachable, new_filter, after,
}

-- The entry of a key is no older than the time given, or it was old enough to be cleaned up.
abbrev pub IsFollowed : ℕ → ℕ → List (Bytes × ℕ) → Bytes × ℕ → Type 0
IsFollowed age clock last p =
    ((t : ℕ) × (lookup p.0 last ≡ some t) × (p.1 ≤ t)) ⊎ (p.1 + age < clock)

pub record FilterInvariant (age : ℕ) (r : FilterRun) : Type 0 where
  pub distinct : IsDistinct r.filter.last_heartbeat
  pub past : All (λ (p : Bytes × ℕ). p.1 ≤ r.clock) r.log
  pub followed : All (IsFollowed age r.clock r.filter.last_heartbeat) r.log

-- A heartbeat is let through and its time entered, or it is filtered and no time changes.
abbrev IsEntered : HeartbeatFilter → HeartbeatData → ℕ → HeartbeatFilter × Verdict → Type 0
IsEntered ahf data_in now result =
    (result.0.last_heartbeat ≡ insert (heartbeat_key data_in) now ahf.last_heartbeat)
    × ((log : List (Bytes × ℕ))
        → logged result.1 (heartbeat_key data_in) now log ≡ (heartbeat_key data_in, now) ∷ log)

abbrev IsUnchanged : HeartbeatFilter → HeartbeatData → ℕ → HeartbeatFilter × Verdict → Type 0
IsUnchanged ahf data_in now result =
    (result.0.last_heartbeat ≡ ahf.last_heartbeat)
    × ((log : List (Bytes × ℕ)) → logged result.1 (heartbeat_key data_in) now log ≡ log)

process_cases :
    (ahf : HeartbeatFilter) (data_in : HeartbeatData) (now : ℕ)
    → IsEntered ahf data_in now (should_process ahf data_in now)
      ⊎ IsUnchanged ahf data_in now (should_process ahf data_in now)
unfolding should_process update_last_heartbeat
process_cases ahf data_in now =
    let counted = count_processed ahf in
    let interval = get_dynamic_interval counted data_in in
    elim (Bool-cases (is_critical_event counted data_in)) [
      | inl t ↦ rw (should_process, t) (inl (refl, λ log. refl))
      | inr t ↦ elim (Bool-cases (nat_beq interval 0)) [
        | inl u ↦ rw (should_process, t, u) (inl (refl, λ log. refl))
        | inr u ↦
            elim (Bool-cases
              (is_too_soon (lookup (heartbeat_key data_in) ahf.last_heartbeat) now interval)) [
                | inl v ↦ rw (should_process, t, u, v) (inr (refl, λ log. refl))
                | inr v ↦ rw (should_process, t, u, v) (inl (refl, λ log. refl))
              ]
      ]
    ]

module _ (age : ℕ) where
  later-IsFollowed :
      (clock now : ℕ) (last : List (Bytes × ℕ)) (p : Bytes × ℕ)
      → clock ≤ now
      → IsFollowed age clock last p
      → IsFollowed age now last p
  later-IsFollowed clock now last p h (inl x) = inl x
  later-IsFollowed clock now last p h (inr x) = inr (omega (arith, h, x))

  inserted-IsFollowed :
      (clock now : ℕ) (key : Bytes) (last : List (Bytes × ℕ)) (p : Bytes × ℕ)
      → clock ≤ now
      → p.1 ≤ clock
      → IsFollowed age clock last p
      → IsFollowed age now (insert key now last) p
  inserted-IsFollowed clock now key last p h before f = elim (Bool-cases (key == p.0)) [
    | inl t ↦
        let here : lookup p.0 (insert key now last) ≡ some now =
          subst (λ k. lookup k (insert key now last) ≡ some now) {x = key} (same_key t)
            (lookup-insert_self key now last) in
        inl (now, here, omega (arith, before, h))
    | inr t ↦ elim f [
      | inl (time, e, le) ↦ inl (time, lookup-insert_ne key p.0 now last (other_key t) ∙ e, le)
      | inr x ↦ inr (omega (arith, h, x))
    ]
  ]

  entered-Invariant :
      (r : FilterRun) (ahf : HeartbeatFilter) (key : Bytes) (now : ℕ)
      → r.clock ≤ now
      → ahf.last_heartbeat ≡ insert key now r.filter.last_heartbeat
      → FilterInvariant age r
      → FilterInvariant age (record { filter = ahf; log = (key, now) ∷ r.log; clock = now })
  entered-Invariant r ahf key now h e i =
      let last = r.filter.last_heartbeat in
      record {
        distinct = subst (λ l. IsDistinct l) (sym e) (insert-IsDistinct key now last i.distinct);
        past = (
          omega arith,
          All-map (λ (p : Bytes × ℕ). p.1 ≤ r.clock) (λ (p : Bytes × ℕ). p.1 ≤ now) r.log
              (λ p x. omega (arith, x, h)) i.past,
        );
        followed =
            subst (λ l. All (IsFollowed age now l) ((key, now) ∷ r.log)) (sym e)
              (
                inl (now, lookup-insert_self key now last, omega arith),
                All-map2 (λ (p : Bytes × ℕ). p.1 ≤ r.clock) (IsFollowed age r.clock last)
                    (IsFollowed age now (insert key now last)) r.log
                    (λ p x y. inserted-IsFollowed r.clock now key last p h x y) i.past i.followed,
              );
      }

  unchanged-Invariant :
      (r : FilterRun) (ahf : HeartbeatFilter) (now : ℕ)
      → r.clock ≤ now
      → ahf.last_heartbeat ≡ r.filter.last_heartbeat
      → FilterInvariant age r
      → FilterInvariant age (record { filter = ahf; log = r.log; clock = now })
  unchanged-Invariant r ahf now h e i = record {
    distinct = subst (λ l. IsDistinct l) (sym e) i.distinct;
    past =
        All-map (λ (p : Bytes × ℕ). p.1 ≤ r.clock) (λ (p : Bytes × ℕ). p.1 ≤ now) r.log
          (λ p x. omega (arith, x, h)) i.past;
    followed =
        subst (λ l. All (IsFollowed age now l) r.log) (sym e)
          (All-map (IsFollowed age r.clock r.filter.last_heartbeat)
            (IsFollowed age now r.filter.last_heartbeat) r.log
            (λ p x. later-IsFollowed r.clock now r.filter.last_heartbeat p h x) i.followed);
  }

  event-Invariant :
      (r : FilterRun) (data_in : HeartbeatData) (now : ℕ)
      → r.clock ≤ now
      → FilterInvariant age r
      → FilterInvariant age (event_run r data_in now)
  event-Invariant r data_in now h i =
      let ahf = (should_process r.filter data_in now).0 in
      elim (process_cases r.filter data_in now) [
        | inl (e, grows) ↦
            subst (λ log. FilterInvariant age (record { filter = ahf; log = log; clock = now }))
              (sym (grows r.log)) (entered-Invariant r ahf (heartbeat_key data_in) now h e i)
        | inr (e, same) ↦
            subst (λ log. FilterInvariant age (record { filter = ahf; log = log; clock = now }))
              (sym (same r.log)) (unchanged-Invariant r ahf now h e i)
      ]

  swept-IsFollowed :
      (clock now max_age : ℕ) (last : List (Bytes × ℕ)) (p : Bytes × ℕ)
      → IsDistinct last
      → clock ≤ now
      → age ≤ max_age
      → IsFollowed age clock last p
      → IsFollowed age now (erase_keys (keys_where (is_old now max_age) last) last) p
  swept-IsFollowed clock now max_age last p d h a (inr x) = inr (omega (arith, h, x))
  swept-IsFollowed clock now max_age last p d h a (inl (t, e, le)) =
      let swept = sweep-lookup (is_old now max_age) p.0 last d in
      elim (Bool-cases (is_old now max_age t)) [
        | inl old ↦ inr (omega (arith, a, le, ltb→lt max_age (now - t) old))
        | inr young ↦
            let kept : spared (is_old now max_age) (lookup p.0 last) ≡ some t =
              rw (e, young) refl in
            inl (t, swept ∙ kept, le)
      ]

  cleanup-Invariant :
      (r : FilterRun) (now max_age : ℕ)
      → r.clock ≤ now
      → age ≤ max_age
      → FilterInvariant age r
      → FilterInvariant age
          (record r { filter = (cleanup_old_entries now max_age r.filter).0; clock = now })
  unfolding cleanup_old_entries
  cleanup-Invariant r now max_age h a i =
      let last = r.filter.last_heartbeat in
      let keys = keys_where (is_old now max_age) last in
      record {
        distinct = erase_keys-IsDistinct keys last i.distinct;
        past =
            All-map (λ (p : Bytes × ℕ). p.1 ≤ r.clock) (λ (p : Bytes × ℕ). p.1 ≤ now) r.log
              (λ p x. omega (arith, x, h)) i.past;
        followed =
            All-map (IsFollowed age r.clock last) (IsFollowed age now (erase_keys keys last)) r.log
              (λ p x. swept-IsFollowed r.clock now max_age last p i.distinct h a x) i.followed;
      }

  step-Invariant :
      (r r2 : FilterRun) → FilterStep age r r2 → FilterInvariant age r → FilterInvariant age r2
  unfolding reset_stats set_power_thresholds set_event_interval
  step-Invariant r r2 (by_event _ data_in now h) i = event-Invariant r data_in now h i
  step-Invariant r r2 (by_cleanup _ now max_age h a) i = cleanup-Invariant r now max_age h a i
  step-Invariant r r2 (by_reset _ now) i =
      unchanged-Invariant r (reset_stats now r.filter) r.clock (omega arith) refl i
  step-Invariant r r2 (by_thresholds _ thresholds) i =
      unchanged-Invariant r (set_power_thresholds thresholds r.filter) r.clock (omega arith) refl i
  step-Invariant r r2 (by_interval _ event_type interval) i =
      unchanged-Invariant r (set_event_interval event_type interval r.filter) r.clock (omega arith)
        refl i

  pub reachable-Invariant : (r : FilterRun) → FilterReachable age r → FilterInvariant age r
  unfolding new_heartbeat_filter
  reachable-Invariant r (new_filter now) = record { distinct = tt; past = tt; followed = tt }
  reachable-Invariant r2 (after r _ h s) = step-Invariant r r2 s (reachable-Invariant r h)
