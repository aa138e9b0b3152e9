-- ===== src/Sessions/PhysicalIdLaws.antt =====
-- Parsing and formatting of a physical ID are inverse to each other.
use iot_zinx.Shared.{
  ℕ, zero, suc, ◌+◌, ◌*◌, ◌/◌, ◌%◌, ◌<◌, ◌≡◌, ◌↔◌, refl, sym, ap, ◌∙◌, subst, inl, inr, arith,
  Bytes, [], ◌∷◌, true, Bool-cases, length, all, ok, err-ne-ok, ok-injective, nat_beq, nat_beq_iff,
  bytes_beq, bytes_beq_iff,
}
use iot_zinx.Payload.Defs.{hex_digit, format_physical_id}
use iot_zinx.Sessions.PhysicalId.{
  is_upper_hex, hex_value, scan_hex, parse_trimmed, trim_space, parse_device_id_to_physical_id,
}

hex_value-hex_digit : (d : ℕ) → d < 16 → hex_value (hex_digit d) ≡ d
unfolding hex_value hex_digit
hex_value-hex_digit d h = ground arith

hex_digit-upper : (d : ℕ) → d < 16 → is_upper_hex (hex_digit d) ≡ true
unfolding hex_digit
hex_digit-upper d h = ground arith

hex_value-small : (c : ℕ) → is_upper_hex c ≡ true → hex_value c < 16
unfolding hex_value
hex_value-small c h = ground arith

format-upper : (n : ℕ) → all is_upper_hex (format_physical_id n) ≡ true
unfolding format_physical_id
format-upper n =
    rw
      (
        hex_digit-upper (n / 268435456 % 16) (omega arith),
        hex_digit-upper (n / 16777216 % 16) (omega arith),
        hex_digit-upper (n / 1048576 % 16) (omega arith),
        hex_digit-upper (n / 65536 % 16) (omega arith),
        hex_digit-upper (n / 4096 % 16) (omega arith),
        hex_digit-upper (n / 256 % 16) (omega arith),
        hex_digit-upper (n / 16 % 16) (omega arith),
        hex_digit-upper (n % 16) (omega arith),
      )
      refl

scan-format : (n : ℕ) → n < 4294967296 → scan_hex 0 (format_physical_id n) ≡ n
unfolding format_physical_id scan_hex
scan-format n h =
    rw
      (
        hex_value-hex_digit (n / 268435456 % 16) (omega arith),
        hex_value-hex_digit (n / 16777216 % 16) (omega arith),
        hex_value-hex_digit (n / 1048576 % 16) (omega arith),
        hex_value-hex_digit (n / 65536 % 16) (omega arith),
        hex_value-hex_digit (n / 4096 % 16) (omega arith),
        hex_value-hex_digit (n / 256 % 16) (omega arith),
        hex_value-hex_digit (n / 16 % 16) (omega arith),
        hex_value-hex_digit (n % 16) (omega arith),
      )
      (omega arith)

abbrev widened : ℕ → ℕ → ℕ
widened zero bound = bound
widened (suc k) bound = widened k (bound * 16)

all-head : (c : ℕ) (s : Bytes) → all is_upper_hex (c ∷ s) ≡ true → is_upper_hex c ≡ true
all-head c s h = ground arith

all-tail : (c : ℕ) (s : Bytes) → all is_upper_hex (c ∷ s) ≡ true → all is_upper_hex s ≡ true
all-tail c s h = ground arith

scan_hex-bound :
    (s : Bytes) (n bound : ℕ)
    → all is_upper_hex s ≡ true
    → n < bound
    → scan_hex n s < widened (length s) bound
unfolding scan_hex
scan_hex-bound [] n bound h b = b
scan_hex-bound (c ∷ s) n bound h b =
    scan_hex-bound s (n * 16 + hex_value c) (bound * 16) (all-tail c s h)
      (omega (arith, hex_value-small c (all-head c s h), b))

format-length : (n : ℕ) → length (format_physical_id n) ≡ 8
unfolding format_physical_id
format-length n = refl

parse_trimmed-format : (n : ℕ) → n < 4294967296 → parse_trimmed (format_physical_id n) ≡ ok n
unfolding parse_trimmed
parse_trimmed-format n h =
    rw
      (
        parse_trimmed,
        format-length n,
        format-upper n,
        scan-format n h,
        (bytes_beq_iff (format_physical_id n) (format_physical_id n)).1 refl,
      )
      refl

parse_trimmed_sound :
    (s : Bytes) (n : ℕ) → parse_trimmed s ≡ ok n → (s ≡ format_physical_id n) × (n < 4294967296)
unfolding parse_trimmed
parse_trimmed_sound s n h = elim (Bool-cases (nat_beq (length s) 8)) [
  | inr f ↦ absurd (err-ne-ok refl (rw (parse_trimmed, f) at h))
  | inl t ↦ elim (Bool-cases (all is_upper_hex s)) [
    | inr f ↦ absurd (err-ne-ok refl (rw (parse_trimmed, t, f) at h))
    | inl u ↦ elim (Bool-cases (bytes_beq (format_physical_id (scan_hex 0 s)) s)) [
      | inr f ↦ absurd (err-ne-ok refl (rw (parse_trimmed, t, u, f) at h))
      | inl v ↦
          let same : scan_hex 0 s ≡ n = ok-injective (rw (parse_trimmed, t, u, v) at h) in
          let small : scan_hex 0 s < widened 8 1 =
            subst (λ k. scan_hex 0 s < widened k 1) ((nat_beq_iff (length s) 8).0 t)
              (scan_hex-bound s 0 1 u (omega arith)) in
          (
            sym ((bytes_beq_iff (format_physical_id (scan_hex 0 s)) s).0 v)
                ∙ ap format_physical_id same,
            omega (arith, small, same),
          )
    ]
  ]
]

nothing_formats : (n : ℕ) → trim_space [] ≡ format_physical_id n → ⊥
unfolding trim_space format_physical_id
nothing_formats n h = cc

-- A text is parsed as a number exactly when, without the white space around it, it is the
-- number's eight upper-case hexadecimal digits, and the number has 32 bits.
pub parse_device_id_iff :
    (device_id : Bytes) (physical_id : ℕ)
    → (parse_device_id_to_physical_id device_id ≡ ok physical_id)
      ↔ ((trim_space device_id ≡ format_physical_id physical_id) × (physical_id < 4294967296))
unfolding parse_device_id_to_physical_id
parse_device_id_iff [] n = (λ h. absurd (err-ne-ok refl h), λ h. absurd (nothing_formats n h.0))
parse_device_id_iff (c ∷ s) n = (
  λ h. parse_trimmed_sound (trim_space (c ∷ s)) n h,
  λ h. ap parse_trimmed h.0 ∙ parse_trimmed-format n h.1,
)
