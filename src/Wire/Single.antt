-- ===== src/Wire/Single.antt =====
-- `ParseMultipleDNYFrames` finds a frame only where the data is one frame and nothing else.
use mathlib.Core.Path.{subst}
use iot_zinx.Shared.{
  ℕ, zero, suc, ◌+◌, ◌-◌, ◌≡◌, ◌≤◌, inl, inr, refl, sym, ap, ◌∙◌, arith, Bytes, List, [], ◌∷◌, ◌++◌,
  Bool, true, false, ◌&&◌, length, append-nil, length-append, take, none, some, Result, ok, err,
  panic, IsErr, slice, slice_in, slice_mid, read16, ltb, leb, nat_beq, bytes_beq, bytes_beq_sound,
  Bool-cases, if◌then◌else◌,
}
use iot_zinx.Shared.Words.{le16, le32, u8}
use iot_zinx.Wire.Frame.{Message, WireError, checksum_mismatch, protocol_header}
use iot_zinx.Wire.Checksum.{packet_checksum, sum_loop}
use iot_zinx.Wire.Parser.{
  Parsed, parse_dny_protocol_data, parse_frame, finish, is_valid_iccid_strict,
}
use iot_zinx.Wire.Steps.{frame_of, covered, checksum_note, slice_length, slice_tail, slice-covered}
use iot_zinx.Wire.Shape.{shape}
use iot_zinx.Wire.RoundTrip.{standard_message, parse-is-parse_frame}
use iot_zinx.Wire.Accept.{framed_elim, parsed_fields}
use iot_zinx.Wire.Results.{
  ParseResult, field_at, sum_at, checked_sum, parse_result, unless_refused, parse_dny_data,
  parse_dny_data_with_consumed, ResultsFault, no_valid_frame, is_dny_at, unless_failed, frame_at,
  frames_loop, parse_multiple_dny_frames,
}

-- At least the smallest size, and "DNY" in front.
unfoldable pub may_be_frame : Bytes → Bool
may_be_frame xs = leb 14 (length xs) && bytes_beq (take 3 xs) protocol_header

-- The one result, or none.
abbrev pub alone : Result WireError ParseResult → Result ResultsFault (List ParseResult)
alone (ok r) = ok (r ∷ [])
alone (err e) = err no_valid_frame
alone panic = panic

-- The whole of the data is read, or refused.
abbrev pub ReadsWhole : Bytes → Result WireError ParseResult → Type 0
ReadsWhole xs (ok r) = (5 + r.declared_length ≡ length xs) × (r.checksum_valid ≡ true)
ReadsWhole xs (err e) = Unit
ReadsWhole xs panic = ⊥

module _ (a b p q r s m n command : ℕ) (payload : Bytes) (c d : ℕ) where
  abbrev content : Bytes
  content = p ∷ q ∷ r ∷ s ∷ m ∷ n ∷ command ∷ payload

  abbrev whole : Bytes
  whole = frame_of a b content c d

  abbrev good : Message
  good =
      standard_message (le32 p q r s) (le16 m n) command payload (sum_loop 0 (covered a b content))
        whole

  enough : (k : ℕ) → k ≤ 14 → leb k (length whole) ≡ true
  enough k h = ground (arith, h, length-append payload (c ∷ d ∷ []))

  declared_field : field_at whole 5 3 5 ≡ ok (le16 a b)
  unfolding field_at read16
  declared_field = rw (enough 5 (omega arith), slice_length a b content c d)

  message_field : field_at whole 11 9 11 ≡ ok (le16 m n)
  unfolding field_at read16
  message_field = rw (
    enough 11 (omega arith),
    slice_mid (0x44 ∷ 0x4e ∷ 0x59 ∷ a ∷ b ∷ p ∷ q ∷ r ∷ s ∷ []) (m ∷ n ∷ [])
        (command ∷ (payload ++ (c ∷ d ∷ []))) 9 11 refl refl,
  )

  sum_field :
      le16 a b ≡ length payload + 9
      → checked_sum whole (le16 a b)
        ≡ ok (le16 c d, nat_beq (sum_loop 0 (covered a b content)) (le16 c d))
  unfolding checked_sum sum_at read16 packet_checksum
  sum_field fits =
      let pos : ℕ = 12 + (le16 a b - 9) in
      let room : leb 9 (le16 a b) && leb (pos + 2) (length whole) ≡ true =
        ground (arith, fits, length-append payload (c ∷ d ∷ [])) in
      rw room (
        rw (slice_tail a b content c d pos (pos + 2) (omega arith) (omega arith))
          (rw (slice-covered a b content c d pos (omega arith))))

  -- What is read of a frame whose checksum is right.
  abbrev read_back : Bool → ParseResult
  read_back valid = record {
    declared_length = le16 a b;
    physical_id = le32 p q r s;
    message_id = le16 m n;
    command = u8 command;
    contents = payload;
    checksum = le16 c d;
    raw_data = whole;
    checksum_valid = valid;
  }

  result_of_good :
      le16 a b ≡ length payload + 9
      → parse_result good ≡ ok (read_back (nat_beq (sum_loop 0 (covered a b content)) (le16 c d)))
  unfolding parse_result
  result_of_good fits = rw declared_field (rw message_field (rw (sum_field fits)))

  data_of_frame :
      le16 a b ≡ length payload + 9
      → parse_dny_data whole
        ≡ unless_refused (finish good (checksum_note (sum_loop 0 (covered a b content)) (le16 c d)))
  unfolding parse_dny_data
  data_of_frame fits = ap unless_refused (
      parse-is-parse_frame a b content c d (omega arith)
      ∙ parsed_fields a b p q r s m n command payload c d fits)

  frame_ReadsWhole : le16 a b ≡ length payload + 9 → ReadsWhole whole (parse_dny_data whole)
  frame_ReadsWhole fits =
      elim (Bool-cases (nat_beq (sum_loop 0 (covered a b content)) (le16 c d))) [
        | inl t ↦
            let e : parse_dny_data whole ≡ ok (read_back true) =
              data_of_frame fits ∙ rw t (result_of_good fits ∙ rw t) in
            subst (ReadsWhole whole) (sym e)
              (omega (arith, length-append payload (c ∷ d ∷ [])), refl)
        | inr f ↦
            let e : parse_dny_data whole
                ≡ err (checksum_mismatch (le16 c d) (sum_loop 0 (covered a b content))) =
              data_of_frame fits ∙ rw f in
            subst (ReadsWhole whole) (sym e) tt
      ]

-- Data that is long enough and begins with "DNY" goes to the frame parser.
split_header :
    (xs : Bytes)
    → bytes_beq (take 3 xs) protocol_header ≡ true
    → (rest : Bytes) × (xs ≡ 0x44 ∷ 0x4e ∷ 0x59 ∷ rest)
split_header [] h = cc
split_header (x ∷ []) h = absurd (ground (arith, h))
split_header (x ∷ y ∷ []) h = absurd (ground (arith, h))
split_header (x ∷ y ∷ z ∷ rest) h =
    (rest, ap (λ (t : Bytes). t ++ rest) (bytes_beq_sound (x ∷ y ∷ z ∷ []) protocol_header h))

header_to_frame :
    (rest : Bytes)
    → 11 ≤ length rest
    → parse_dny_protocol_data (0x44 ∷ 0x4e ∷ 0x59 ∷ rest) ≡ parse_frame (0x44 ∷ 0x4e ∷ 0x59 ∷ rest)
unfolding parse_dny_protocol_data is_valid_iccid_strict
header_to_frame rest h = ground arith

refused_ReadsWhole : (xs : Bytes) (r : Parsed) → IsErr r → ReadsWhole xs (unless_refused r)
refused_ReadsWhole xs (ok msg) h = absurd h
refused_ReadsWhole xs (err (msg, e)) h = tt
refused_ReadsWhole xs panic h = absurd h

-- Data that may be a frame is read as a whole, with a good checksum, or refused with an error.
parse_dny_data-ReadsWhole :
    (xs : Bytes) → may_be_frame xs ≡ true → ReadsWhole xs (parse_dny_data xs)
unfolding may_be_frame parse_dny_data
parse_dny_data-ReadsWhole xs h =
    let long : 14 ≤ length xs = ground arith in
    let header : bytes_beq (take 3 xs) protocol_header ≡ true = ground arith in
    elim (shape xs long) [
      | inl f ↦
          framed_elim (λ ys. ReadsWhole ys (parse_dny_data ys))
            (λ a b p q r s m n command payload c d fits.
              frame_ReadsWhole a b p q r s m n command payload c d fits)
            f
      | inr refused ↦
          let (rest, e) = split_header xs header in
          let same : parse_dny_protocol_data xs ≡ parse_frame xs =
            rw e (header_to_frame rest (omega (arith, ap length e))) in
          refused_ReadsWhole xs (parse_dny_protocol_data xs) (rw same (refused.parse_refuses))
    ]

all_of_it : (xs : Bytes) → slice {E = ResultsFault} xs 0 (length xs) ≡ ok xs
all_of_it xs =
    rw (append-nil xs) at (slice_mid {E = ResultsFault} [] xs [] 0 (length xs) refl (omega arith))

first_round :
    (xs : Bytes)
    → frame_at xs 0
      ≡ (if may_be_frame xs then unless_failed (parse_dny_data_with_consumed xs) else ok none)
unfolding frame_at is_dny_at may_be_frame
first_round xs = elim (Bool-cases (ltb (length xs) 14)) [
  | inl t ↦
      let short : leb 14 (length xs) ≡ false = ground arith in rw (all_of_it xs) (rw (t, short))
  | inr f ↦
      let long : leb 14 (length xs) ≡ true = ground arith in
      let three : leb 3 (length xs) ≡ true = ground arith in
      let front : slice {E = ResultsFault} xs 0 3 ≡ ok (take 3 xs) =
        slice_in xs 0 3 (omega arith) (ground arith) in
      rw (all_of_it xs) (rw (f, long, three, front))
]

consumed_some :
    (xs : Bytes) (r : ParseResult)
    → parse_dny_data xs ≡ ok r
    → parse_dny_data_with_consumed xs ≡ ok (r, 5 + r.declared_length)
unfolding parse_dny_data_with_consumed
consumed_some xs r e = rw e

consumed_err :
    (xs : Bytes) (fault : WireError)
    → parse_dny_data xs ≡ err fault
    → parse_dny_data_with_consumed xs ≡ err fault
unfolding parse_dny_data_with_consumed
consumed_err xs fault e = rw e

loop_after :
    (fuel : ℕ) (xs : Bytes) (offset : ℕ) (rs : List ParseResult)
    → length xs ≤ offset
    → frames_loop fuel xs offset rs ≡ ok rs
unfolding frames_loop
loop_after zero xs offset rs h = ground arith
loop_after (suc fuel) xs offset rs h = ground arith

-- The loop stops where there can be no frame, and after one frame.
loop_stops :
    (xs : Bytes) → frame_at xs 0 ≡ ok none → parse_multiple_dny_frames xs ≡ err no_valid_frame
unfolding parse_multiple_dny_frames frames_loop
loop_stops xs e = rw e (ground arith)

loop_takes :
    (xs : Bytes) (r : ParseResult) (n : ℕ)
    → frame_at xs 0 ≡ ok (some (r, n))
    → 1 ≤ length xs
    → length xs ≤ n
    → parse_multiple_dny_frames xs ≡ ok (r ∷ [])
unfolding parse_multiple_dny_frames frames_loop
loop_takes xs r n e some_data all =
    let first : ltb 0 (length xs) ≡ true = ground arith in
    rw (first, e) (rw (loop_after (length xs) xs (0 + n) ([] ++ (r ∷ [])) (omega arith)))

multiple_of_result :
    (xs : Bytes) (r : Result WireError ParseResult)
    → may_be_frame xs ≡ true
    → parse_dny_data xs ≡ r
    → ReadsWhole xs r
    → parse_multiple_dny_frames xs ≡ alone r
multiple_of_result xs (ok r) may e w =
    loop_takes xs r (5 + r.declared_length) (first_round xs ∙ rw (may, consumed_some xs r e))
      (omega (arith, w.0)) (omega (arith, w.0))
multiple_of_result xs (err fault) may e w =
    loop_stops xs (first_round xs ∙ rw (may, consumed_err xs fault e))
multiple_of_result xs panic may e w = absurd w

-- `ParseMultipleDNYFrames` answers with the result of `ParseDNYData` on the whole of the data, alone
-- in its list, where the data has 14 bytes at least, begins with "DNY" and is parsed; on everything
-- else it fails. So it never answers with more than one result, and frames that follow each other
-- make it fail; and every result accounts for the whole of the data and has a good checksum.
pub parse_multiple_dny_frames_lem :
    (xs : Bytes)
    → (parse_multiple_dny_frames xs
        ≡ (if may_be_frame xs then alone (parse_dny_data xs) else err no_valid_frame))
      × (may_be_frame xs ≡ true → ReadsWhole xs (parse_dny_data xs))
parse_multiple_dny_frames_lem xs = (
  elim (Bool-cases (may_be_frame xs)) [
    | inl t ↦
        multiple_of_result xs (parse_dny_data xs) t refl (parse_dny_data-ReadsWhole xs t) ∙ rw t
    | inr f ↦ loop_stops xs (first_round xs ∙ rw f) ∙ rw f
  ],
  parse_dny_data-ReadsWhole xs,
)
