-- ===== src/Commands/Expiry.antt =====
-- What the deletion of expired commands removes and what it keeps.
use iot_zinx.Shared.{
  ℕ, ◌+◌, ◌<◌, ◌≡◌, ◌↔◌, refl, subst, arith, false, true, sym, ap, ◌∙◌, inl, inr, Bytes, bytes_eq,
  ◌==◌, List, [], ◌∷◌, Bool-cases, none, some, Option-cases, if◌then◌else◌,
}
use iot_zinx.Shared.Table.{lookup, erase}
use iot_zinx.Shared.Keys.{erase_absent, true-ne-false}
use iot_zinx.Shared.Sweep.{keys_where, erase_keys, spared, Removes, spared-Removes, sweep-lookup}
use iot_zinx.Commands.Manager.{
  CommandEntry, Commands, CommandManager, delete_command, delete_commands, get_command,
}
use iot_zinx.Commands.Retry.{
  is_expired, marked_expired, mark_expired, collect_timeouts, delete_expired,
}
use iot_zinx.Commands.Runs.{CommandReachable, retries_bounded, mark-Table}

delete-commands :
    (key : Bytes) (cm : CommandManager) → (delete_command key cm).commands ≡ erase key cm.commands
unfolding delete_command
delete-commands key cm = elim (Option-cases (lookup key cm.commands)) [
  | inl e ↦ rw (delete_command, e) (sym (erase_absent key cm.commands e))
  | inr (entry, e) ↦ rw (delete_command, e) refl
]

all-commands :
    (keys : List Bytes) (cm : CommandManager)
    → (delete_commands keys cm).commands ≡ erase_keys keys cm.commands
all-commands [] cm = refl
all-commands (key ∷ keys) cm =
    all-commands keys (delete_command key cm) ∙ ap (erase_keys keys) (delete-commands key cm)

marked_again :
    (now : ℕ) (entry : CommandEntry)
    → is_expired now (marked_expired now entry) ≡ is_expired now entry
unfolding is_expired
marked_again now entry = elim (Bool-cases (is_expired now entry)) [
  | inl t ↦ rw (marked_expired, t) t
  | inr t ↦ rw (marked_expired, t) t
]

keys-mark :
    (now : ℕ) (commands : Commands)
    → keys_where (is_expired now) (mark_expired now commands) ≡ keys_where (is_expired now) commands
keys-mark now [] = refl
keys-mark now ((key, entry) ∷ commands) = rw (marked_again now entry, keys-mark now commands) refl

spared-mark :
    (now : ℕ) (key : Bytes) (commands : Commands)
    → spared (is_expired now) (lookup key (mark_expired now commands))
      ≡ spared (is_expired now) (lookup key commands)
unfolding lookup
spared-mark now key [] = refl
spared-mark now key ((k, entry) ∷ commands) = elim (Bool-cases (k == key)) [
  | inl t ↦ rw t (rw (marked_again now entry) (same_kept now entry))
  | inr f ↦ rw f (spared-mark now key commands)
]
  where
    same_kept :
        (now : ℕ) (entry : CommandEntry)
        → (if is_expired now entry then none else some (marked_expired now entry))
          ≡ (if is_expired now entry then none else some entry)
    same_kept now entry = elim (Bool-cases (is_expired now entry)) [
      | inl t ↦ rw t refl
      | inr t ↦ rw t refl
    ]

expired_spared :
    (cm : CommandManager) (now : ℕ) (key : Bytes)
    → CommandReachable cm
    → get_command (delete_expired (collect_timeouts now cm).1 (collect_timeouts now cm).0) key
      ≡ spared (is_expired now) (get_command cm key)
unfolding collect_timeouts delete_expired get_command
expired_spared cm now key r =
    let h = retries_bounded cm r in
    let marked = mark_expired now cm.commands in
    let keys = keys_where (is_expired now) cm.commands in
    ap (lookup key) (all-commands keys (record cm { commands = marked }))
    ∙ ap (λ ks. lookup key (erase_keys ks marked)) (sym (keys-mark now cm.commands))
    ∙ sweep-lookup (is_expired now) key marked
        (mark-Table now cm.commands h.distinct h.bounded).distinct
    ∙ spared-mark now key cm.commands

-- Not confirmed, and made more than 60 seconds ago.
abbrev pub IsOverdue : ℕ → CommandEntry → Type 0
IsOverdue now entry = (entry.is_confirmed ≡ false) × (entry.create_time + 60000000000 < now)

is_expired_iff :
    (now : ℕ) (entry : CommandEntry) → (is_expired now entry ≡ true) ↔ IsOverdue now entry
unfolding is_expired
is_expired_iff now entry = elim (Bool-cases entry.is_confirmed) [
  | inl t ↦ (
    λ h. absurd (true-ne-false (sym (rw (is_expired, t) at h))),
    λ h. absurd (true-ne-false (sym t ∙ h.0)),
  )
  | inr t ↦ (λ h. (t, ground arith), λ h. ground arith)
]

-- In every table that the calls can reach, collecting and then deleting the expired commands takes
-- out exactly the commands that are unconfirmed and older than 60 seconds, and keeps every other
-- command as it is.
pub expired_deleted :
    (cm : CommandManager) (now : ℕ) (key : Bytes)
    → CommandReachable cm
    → Removes
        (IsOverdue now)
        (get_command cm key)
        (get_command (delete_expired (collect_timeouts now cm).1 (collect_timeouts now cm).0) key)
expired_deleted cm now key r =
    subst (Removes (IsOverdue now) (get_command cm key)) (sym (expired_spared cm now key r))
      (spared-Removes (is_expired now) (IsOverdue now) (is_expired_iff now) (get_command cm key))
