-- ===== src/Wire/Corrupt.antt =====
-- A frame with one wrong byte in front of its checksum is refused.
use iot_zinx.Shared.{
  ℕ, ◌+◌, ◌≡◌, ◌≢◌, ◌≤◌, inl, inr, refl, sym, ap, ◌∙◌, arith, Bytes, [], ◌∷◌, ◌++◌, append_assoc,
  length, length-append, take, drop, take-append, drop-append, ok, ltb, ltb→lt, Bool-cases,
  IsErr-ne-ok,
}
use iot_zinx.Shared.Words.{le16, IsByte}
use iot_zinx.Wire.Frame.{standard}
use iot_zinx.Wire.Checksum.{sum_loop, sum_loop-flip}
use iot_zinx.Wire.Builder.{validate_packet}
use iot_zinx.Wire.Parser.{parse_dny_protocol_data}
use iot_zinx.Wire.Steps.{covered, packet_verdict, validate_packet-frame_of}
use iot_zinx.Wire.Shape.{shape, split_last_two}
use iot_zinx.Wire.Accept.{short_refused, standard_iff_valid}

same_ends :
    (xs ys : Bytes) (a b c d : ℕ)
    → xs ++ (a ∷ b ∷ []) ≡ ys ++ (c ∷ d ∷ [])
    → (xs ≡ ys) × (a ≡ c) × (b ≡ d)
same_ends xs ys a b c d e =
    let size : length xs ≡ length ys =
      omega (arith, ap length e, length-append xs (a ∷ b ∷ []), length-append ys (c ∷ d ∷ [])) in
    let front : xs ≡ ys =
      sym (take-append xs (a ∷ b ∷ []) (length xs) refl)
      ∙ ap (take (length xs)) e
      ∙ take-append ys (c ∷ d ∷ []) (length xs) size in
    let back : a ∷ b ∷ [] ≡ c ∷ d ∷ [] =
      sym (drop-append xs (a ∷ b ∷ []) (length xs) refl)
      ∙ ap (drop (length xs)) e
      ∙ drop-append ys (c ∷ d ∷ []) (length xs) size in
    (front, cc, cc)

verdict_sum :
    (a b : ℕ) (content : Bytes) (c d : ℕ) (fits : le16 a b ≡ length content + 2)
    → packet_verdict a b content c d fits ≡ ok tt
    → sum_loop 0 (covered a b content) ≡ le16 c d
verdict_sum a b content c d fits h = ground arith

-- A frame that passes ends in the checksum of what stands before it.
valid_sum :
    (front : Bytes) (c d : ℕ)
    → validate_packet (front ++ (c ∷ d ∷ [])) ≡ ok tt
    → sum_loop 0 front ≡ le16 c d
valid_sum front c d v =
    let xs : Bytes = front ++ (c ∷ d ∷ []) in
    elim (Bool-cases (ltb (length xs) 14)) [
      | inl h ↦ absurd (IsErr-ne-ok (short_refused xs (ltb→lt _ _ h)) v)
      | inr h ↦ elim (shape xs (ground arith)) [
        | inr r ↦ absurd (IsErr-ne-ok r.packet_refuses v)
        | inl f ↦
            let (e, ec, ed) = same_ends front (covered f.a f.b f.content) c d f.c f.d f.whole in
            rw (e, ec, ed)
              (verdict_sum f.a f.b f.content f.c f.d f.fits (
                sym (validate_packet-frame_of f.a f.b f.content f.c f.d f.fits f.long)
                ∙ rw f.whole at v))
      ]
    ]

-- If `ValidatePacket` passes a frame, and one byte in front of its two checksum bytes is changed
-- into another byte, then neither it nor the parser accepts the result.
pub corrupt_refused :
    (front back : Bytes) (x y : ℕ)
    → 2 ≤ length back
    → IsByte x
    → IsByte y
    → x ≢ y
    → validate_packet (front ++ (x ∷ back)) ≡ ok tt
    → (validate_packet (front ++ (y ∷ back)) ≢ ok tt)
      × ¬ (
          (m : _) × (parse_dny_protocol_data (front ++ (y ∷ back)) ≡ ok m)
          × (m.message_type ≡ standard))
corrupt_refused front back x y long hx hy ne v =
    (refused, λ m. refused ((standard_iff_valid _).0 m))
  where
    refused : validate_packet (front ++ (y ∷ back)) ≢ ok tt
    refused w =
        let (middle, c, d, e) = split_last_two back long in
        let regroup : (z : ℕ) → front ++ (z ∷ back) ≡ (front ++ (z ∷ middle)) ++ (c ∷ d ∷ []) =
          λ z. rw e (sym (append_assoc front (z ∷ middle) (c ∷ d ∷ []))) in
        sum_loop-flip front middle x y hx hy ne (
          valid_sum (front ++ (x ∷ middle)) c d (rw (regroup x) at v)
          ∙ sym (valid_sum (front ++ (y ∷ middle)) c d (rw (regroup y) at w)))
