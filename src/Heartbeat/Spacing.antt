-- ===== src/Heartbeat/Spacing.antt =====
-- How far apart the heartbeats are that the filter lets through for their interval.
use iot_zinx.Shared.{
  ℕ, ◌+◌, ◌-◌, ◌≤◌, ◌≡◌, ◌≢◌, ◌⊎◌, sym, subst, inl, inr, arith, Bytes, bytes_eq, List, ◌==◌, false,
  Bool-cases, All, ltb, nat_beq,
}
use iot_zinx.Shared.Table.{lookup}
use iot_zinx.Shared.Keys.{same_key, other_key}
use iot_zinx.Shared.Sizes.{All-map2}
use iot_zinx.Heartbeat.Filter.{
  HeartbeatData, HeartbeatFilter, critical_event, no_filter, passed, filtered, is_critical_event,
  get_dynamic_interval, heartbeat_key, count_processed, is_too_soon, should_process,
}
use iot_zinx.Heartbeat.Runs.{FilterRun, FilterReachable}
use iot_zinx.Heartbeat.Followed.{IsFollowed, reachable-Invariant}

critical-ne-passed : critical_event ≡ passed → ⊥
critical-ne-passed h = cc

no_filter-ne-passed : no_filter ≡ passed → ⊥
no_filter-ne-passed h = cc

filtered-ne-passed : {n : ℕ} → filtered n ≡ passed → ⊥
filtered-ne-passed h = cc

passed_late :
    (ahf : HeartbeatFilter) (data_in : HeartbeatData) (now : ℕ)
    → (should_process ahf data_in now).1 ≡ passed
    → is_too_soon
        (lookup (heartbeat_key data_in) ahf.last_heartbeat)
        now
        (get_dynamic_interval ahf data_in)
      ≡ false
unfolding should_process get_dynamic_interval
passed_late ahf data_in now h =
    let counted = count_processed ahf in
    let interval = get_dynamic_interval counted data_in in
    elim (Bool-cases (is_critical_event counted data_in)) [
      | inl t ↦ absurd (critical-ne-passed (rw (should_process, t) at h))
      | inr t ↦ elim (Bool-cases (nat_beq interval 0)) [
        | inl u ↦ absurd (no_filter-ne-passed (rw (should_process, t, u) at h))
        | inr u ↦
            elim (Bool-cases
              (is_too_soon (lookup (heartbeat_key data_in) ahf.last_heartbeat) now interval)) [
                | inl v ↦ absurd (filtered-ne-passed (rw (should_process, t, u, v) at h))
                | inr v ↦ v
              ]
      ]
    ]

-- The time of a heartbeat let through before, where the key is the same.
is_spaced :
    (age clock now interval : ℕ) (last : List (Bytes × ℕ)) (p : Bytes × ℕ)
    → clock ≤ now
    → interval ≤ age
    → is_too_soon (lookup p.0 last) now interval ≡ false
    → p.1 ≤ clock
    → IsFollowed age clock last p
    → p.1 + interval ≤ now
is_spaced age clock now interval last p h a late before (inr x) = omega (arith, h, a, x)
is_spaced age clock now interval last p h a late before (inl (t, e, le)) =
    let free : ltb (now - t) interval ≡ false = rw e at late in ground (arith, free, le, before, h)

-- In every run of the filter whose clean-ups spare what is younger than some age: a heartbeat that
-- passes for its interval, where that is at most this age, comes at least its interval after every
-- heartbeat of the same device and event type that was let through before, for whatever reason.
pub passed_spaced :
    (age : ℕ) (r : FilterRun) (data_in : HeartbeatData) (now : ℕ)
    → FilterReachable age r
    → r.clock ≤ now
    → get_dynamic_interval r.filter data_in ≤ age
    → (should_process r.filter data_in now).1 ≡ passed
    → All
        (λ (p : Bytes × ℕ).
          (p.0 ≢ heartbeat_key data_in) ⊎ (p.1 + get_dynamic_interval r.filter data_in ≤ now))
        r.log
passed_spaced age r data_in now reached h a is_passed =
    let i = reachable-Invariant age r reached in
    let interval = get_dynamic_interval r.filter data_in in
    let last = r.filter.last_heartbeat in
    let key = heartbeat_key data_in in
    let late = passed_late r.filter data_in now is_passed in
    All-map2 (λ (p : Bytes × ℕ). p.1 ≤ r.clock) (IsFollowed age r.clock last)
      (λ (p : Bytes × ℕ). (p.0 ≢ key) ⊎ (p.1 + interval ≤ now)) r.log
      (λ p x y. elim (Bool-cases (p.0 == key)) [
        | inr f ↦ inl (other_key f)
        | inl t ↦ inr (
            is_spaced age r.clock now interval last p h a
              (subst (λ k. is_too_soon (lookup k last) now interval ≡ false) {x = key}
                (sym (same_key t)) late)
              x y)
      ])
      i.past i.followed
