-- ===== src/Wire/Accept.antt =====
-- What the parser and the validators accept: exactly the frames that the builder makes.
use mathlib.Core.Path.{subst}
use iot_zinx.Shared.{
  ℕ, ◌+◌, ◌/◌, ◌≡◌, ◌≤◌, ◌<◌, ◌↔◌, inl, inr, refl, sym, ap, ◌∙◌, arith, Bytes, [], ◌∷◌, ◌++◌,
  length, Option, none, some, Bool, true, false, Result, reject, ok, ltb, ltb→lt, nat_beq,
  nat_beq_iff, Bool-cases, All, IsErr, IsErr-ne-ok, ok-injective, err-ne-ok,
}
use iot_zinx.Shared.Words.{le16, le32, u8, u32, IsByte}
use iot_zinx.Wire.Frame.{
  Message, WireError, checksum_mismatch, packet_checksum_mismatch, standard, protocol_header,
  raw_message,
}
use iot_zinx.Wire.Checksum.{packet_checksum, sum_loop}
use iot_zinx.Wire.Builder.{build_packet, validate_packet, validate_dny_frame}
use iot_zinx.Wire.Parser.{parse_frame, parse_dny_protocol_data, finish}
use iot_zinx.Wire.Steps.{
  frame_of, covered, checksum_note, parse_frame-frame_of, validate_packet-frame_of,
  validate_dny_frame-frame_of,
}
use iot_zinx.Wire.Shape.{IsFramed, shape, reworded_verdict}
use iot_zinx.Wire.RoundTrip.{standard_message, parse_content-fields, parse-is-parse_frame}

-- Only `parse_frame` makes a standard message.
standard_is_frame :
    (xs : Bytes) (m : Message)
    → parse_dny_protocol_data xs ≡ ok m
    → m.message_type ≡ standard
    → (14 ≤ length xs) × (parse_frame xs ≡ ok m)
unfolding parse_dny_protocol_data
standard_is_frame xs m e t = ground arith

-- The seven bytes of fields in front of the payload.
record HasFields (content : Bytes) : Type 0 where
  p : ℕ
  q : ℕ
  r : ℕ
  s : ℕ
  m : ℕ
  n : ℕ
  command : ℕ
  payload : Bytes
  fields : content ≡ p ∷ q ∷ r ∷ s ∷ m ∷ n ∷ command ∷ payload

has_fields : (content : Bytes) → 7 ≤ length content → HasFields content
has_fields [] h = absurd (omega arith)
has_fields (p ∷ []) h = absurd (omega arith)
has_fields (p ∷ q ∷ []) h = absurd (omega arith)
has_fields (p ∷ q ∷ r ∷ []) h = absurd (omega arith)
has_fields (p ∷ q ∷ r ∷ s ∷ []) h = absurd (omega arith)
has_fields (p ∷ q ∷ r ∷ s ∷ m ∷ []) h = absurd (omega arith)
has_fields (p ∷ q ∷ r ∷ s ∷ m ∷ n ∷ []) h = absurd (omega arith)
has_fields (p ∷ q ∷ r ∷ s ∷ m ∷ n ∷ command ∷ payload) h = record {
  p = p;
  q = q;
  r = r;
  s = s;
  m = m;
  n = n;
  command = command;
  payload = payload;
  fields = refl;
}

module _ (a b p q r s m n command : ℕ) (payload : Bytes) (c d : ℕ) where
  abbrev content : Bytes
  content = p ∷ q ∷ r ∷ s ∷ m ∷ n ∷ command ∷ payload

  -- With these bytes and a good checksum, the builder makes the same frame again.
  rebuilt :
      All IsByte (frame_of a b content c d)
      → le16 a b ≡ length payload + 9
      → sum_loop 0 (covered a b content) ≡ le16 c d
      → IsByte c
      → IsByte d
      → build_packet (le32 p q r s) (le16 m n) command payload ≡ ok (frame_of a b content c d)
  unfolding build_packet packet_checksum
  rebuilt bytes fits sum hc hd = rw (ea, eb, ep, eq, er, es, em, en, sum, ec, ed)
    where
      ea : u8 (4 + 2 + 1 + length payload + 2) ≡ a
      ea = omega arith

      eb : u8 ((4 + 2 + 1 + length payload + 2) / 256) ≡ b
      eb = omega arith

      ep : u8 (le32 p q r s) ≡ p
      ep = omega arith

      eq : u8 (le32 p q r s / 256) ≡ q
      eq = omega arith

      er : u8 (le32 p q r s / 65536) ≡ r
      er = omega arith

      es : u8 (le32 p q r s / 16777216) ≡ s
      es = omega arith

      em : u8 (le16 m n) ≡ m
      em = omega arith

      en : u8 (le16 m n / 256) ≡ n
      en = omega arith

      ec : u8 (le16 c d) ≡ c
      ec = omega arith

      ed : u8 (le16 c d / 256) ≡ d
      ed = omega arith

  size_fits : le16 a b ≡ length payload + 9 → le16 a b ≡ length content + 2
  size_fits h = omega arith

  -- The parser accepts such a frame exactly when the checksum is right.
  pub parsed_fields :
      le16 a b ≡ length payload + 9
      → parse_frame (frame_of a b content c d)
        ≡ finish
            (standard_message
              (le32 p q r s)
              (le16 m n)
              command
              payload
              (sum_loop 0 (covered a b content))
              (frame_of a b content c d))
            (checksum_note (sum_loop 0 (covered a b content)) (le16 c d))
  unfolding raw_message
  parsed_fields h =
      parse_frame-frame_of a b content c d (size_fits h)
      ∙ parse_content-fields _ _ p q r s m n command payload
      ∙ forget (checksum_note (sum_loop 0 (covered a b content)) (le16 c d))
    where
      forget :
          (noted : Option WireError)
          → finish
              (record (raw_message (frame_of a b content c d)) {
                packet_header = protocol_header;
                checksum = sum_loop 0 (covered a b content);
                physical_id = le32 p q r s;
                message_id = le16 m n;
                command_id = command;
                id = command;
                payload = payload;
                data_len = u32 (length payload);
              })
              noted
            ≡ finish
                (standard_message
                  (le32 p q r s)
                  (le16 m n)
                  command
                  payload
                  (sum_loop 0 (covered a b content))
                  (frame_of a b content c d))
                noted
      forget none = refl
      forget (some e) = refl

  -- Every byte of the frame is one, so the last two are.
  tail_IsByte : All IsByte (frame_of a b content c d) → IsByte c × IsByte d
  tail_IsByte bytes = last_two (covered a b content) bytes
    where
      last_two : (xs : Bytes) → All IsByte (xs ++ (c ∷ d ∷ [])) → IsByte c × IsByte d
      last_two [] h = (h.0, h.1.0)
      last_two (x ∷ xs) h = last_two xs h.1

  accepted_rebuilt :
      (msg : Message)
      → All IsByte (frame_of a b content c d)
      → le16 a b ≡ length payload + 9
      → parse_frame (frame_of a b content c d) ≡ ok msg
      → build_packet msg.physical_id msg.message_id msg.command_id msg.payload
        ≡ ok (frame_of a b content c d)
  accepted_rebuilt msg bytes fits e =
      elim (Bool-cases (nat_beq (sum_loop 0 (covered a b content)) (le16 c d))) [
        | inl t ↦
            subst
              (λ (x : Message).
                build_packet x.physical_id x.message_id x.command_id x.payload
                ≡ ok (frame_of a b content c d))
              (ok-injective (sym (rw (t, finish) at (parsed_fields fits)) ∙ e))
              (rebuilt bytes fits ((nat_beq_iff _ _).0 t) (tail_IsByte bytes).0
                (tail_IsByte bytes).1)
        | inr f ↦ absurd (err-ne-ok (rw (f, finish) at (parsed_fields fits)) e)
      ]

  -- Acceptance by the parser and by the validators is the same test.
  framed_iff :
      le16 a b ≡ length payload + 9
      → ((msg : Message) × (parse_frame (frame_of a b content c d) ≡ ok msg)
          × (msg.message_type ≡ standard))
        ↔ (validate_packet (frame_of a b content c d) ≡ ok tt)
  framed_iff fits = elim (Bool-cases (nat_beq (sum_loop 0 (covered a b content)) (le16 c d))) [
    | inl t ↦ (
      λ _. validate_packet-frame_of a b content c d (size_fits fits) (omega arith) ∙ rw t,
      λ _. (_, rw (t, finish) at (parsed_fields fits), refl),
    )
    | inr f ↦ (
      λ h. absurd (err-ne-ok (rw (f, finish) at (parsed_fields fits)) h.1),
      λ h. absurd (
          IsErr-ne-ok {r = validate_packet (frame_of a b content c d)}
            (rw (validate_packet-frame_of a b content c d (size_fits fits) (omega arith), f) tt) h),
    )
  ]

-- A fact of every frame of fields is a fact of every framed byte string.
pub framed_elim {ℓ} :
    (P : Bytes → Type ℓ)
    → ((a b p q r s m n command : ℕ) (payload : Bytes) (c d : ℕ)
        → le16 a b ≡ length payload + 9
        → P (frame_of a b (p ∷ q ∷ r ∷ s ∷ m ∷ n ∷ command ∷ payload) c d))
    → {xs : Bytes} → IsFramed xs
    → P xs
framed_elim P each f =
    let g = has_fields f.content f.long in
    subst P (sym (f.whole ∙ ap (λ (t : Bytes). frame_of f.a f.b t f.c f.d) g.fields)) (
      each f.a f.b g.p g.q g.r g.s g.m g.n g.command g.payload f.c f.d
        (f.fits ∙ ap (λ (t : Bytes). length t + 2) g.fields ∙ omega arith))

-- Every byte string that parses to a standard message is the frame that the builder makes of
-- that message's fields.
pub build-parse :
    (xs : Bytes) (msg : Message)
    → All IsByte xs
    → parse_dny_protocol_data xs ≡ ok msg
    → msg.message_type ≡ standard
    → build_packet msg.physical_id msg.message_id msg.command_id msg.payload ≡ ok xs
build-parse xs msg bytes e t =
    let (long, e') = standard_is_frame xs msg e t in
    elim (shape xs long) [
      | inl f ↦
          framed_elim
            (λ ys.
              All IsByte ys
              → parse_frame ys ≡ ok msg
              → build_packet msg.physical_id msg.message_id msg.command_id msg.payload ≡ ok ys)
            (λ a b p q r s m n command payload c d fits ys e.
              accepted_rebuilt a b p q r s m n command payload c d msg ys fits e)
            f bytes e'
      | inr r ↦ absurd (IsErr-ne-ok r.parse_refuses e')
    ]

pub parse_of_frame : {xs : Bytes} → IsFramed xs → parse_dny_protocol_data xs ≡ parse_frame xs
parse_of_frame f = rw (f.whole) (parse-is-parse_frame f.a f.b f.content f.c f.d f.long)

pub short_refused : (xs : Bytes) → length xs < 14 → IsErr (validate_packet xs)
unfolding validate_packet
short_refused xs h = ground arith

short_agree :
    (xs : Bytes) → length xs < 14 → validate_packet xs ≡ reworded_verdict (validate_dny_frame xs)
unfolding validate_packet validate_dny_frame
short_agree xs h = ground arith

-- A byte string parses to a standard message exactly when `ValidatePacket` passes it.
pub standard_iff_valid :
    (xs : Bytes)
    → ((msg : Message) × (parse_dny_protocol_data xs ≡ ok msg) × (msg.message_type ≡ standard))
      ↔ (validate_packet xs ≡ ok tt)
standard_iff_valid xs = elim (Bool-cases (ltb (length xs) 14)) [
  | inl h ↦ (
    λ m. absurd (omega (arith, (standard_is_frame xs m.0 m.1 m.2).0, ltb→lt _ _ h)),
    λ v. absurd (IsErr-ne-ok (short_refused xs (ltb→lt _ _ h)) v),
  )
  | inr h ↦ elim (shape xs (ground arith)) [
    | inl f ↦ rw (parse_of_frame f) (
        framed_elim
          (λ ys.
            ((msg : Message) × (parse_frame ys ≡ ok msg) × (msg.message_type ≡ standard))
            ↔ (validate_packet ys ≡ ok tt))
          (λ a b p q r s m n command payload c d fits.
            framed_iff a b p q r s m n command payload c d fits)
          f)
    | inr r ↦ (
      λ m. absurd (IsErr-ne-ok r.parse_refuses (standard_is_frame xs m.0 m.1 m.2).1),
      λ v. absurd (IsErr-ne-ok r.packet_refuses v),
    )
  ]
]

verdicts_agree :
    (wrong : Bool) (expected actual : ℕ)
    → ◌≡◌ {A = Result WireError (Unit {0})}
        (reject wrong (packet_checksum_mismatch expected actual))
        (reworded_verdict (reject wrong (checksum_mismatch expected actual)))
verdicts_agree true expected actual = refl
verdicts_agree false expected actual = refl

-- The two validators give the same verdict on every byte string, and where they refuse it they do so
-- at the same check with the same numbers, each in its own words.
pub validators_agree : (xs : Bytes) → validate_packet xs ≡ reworded_verdict (validate_dny_frame xs)
validators_agree xs = elim (Bool-cases (ltb (length xs) 14)) [
  | inl h ↦ short_agree xs (ltb→lt _ _ h)
  | inr h ↦ elim (shape xs (ground arith)) [
    | inl f ↦ rw (f.whole) (
        validate_packet-frame_of f.a f.b f.content f.c f.d f.fits f.long
        ∙ verdicts_agree _ _ _
        ∙ ap reworded_verdict
            (sym (validate_dny_frame-frame_of f.a f.b f.content f.c f.d f.fits f.long)))
    | inr r ↦ r.validators_agree
  ]
]
