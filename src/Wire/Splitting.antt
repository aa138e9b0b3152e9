-- ===== src/Wire/Splitting.antt =====
-- Splitting a stream: whole packets come out as they went in, and a frame cut off behind its header
-- is kept.
use iot_zinx.Shared.{
  ℕ, zero, suc, ◌≡◌, ◌≤◌, ◌<◌, refl, ◌∙◌, arith, Bytes, List, [], ◌∷◌, ◌++◌, append_assoc, true,
  false, length, length-append, take-append, drop-append, All, ok, leb, nat_beq,
}
use iot_zinx.Shared.Words.{le16}
use iot_zinx.Wire.Frame.{protocol_header, header_link}
use iot_zinx.Wire.Parser.{is_valid_iccid_strict}
use iot_zinx.Wire.Framing.{sized_frame}
use iot_zinx.Wire.Splitter.{
  starts_with, starts_with_iccid, split_frame, next_step, packet, stop, prepend, split_loop,
  split_packets,
}

-- The packets that the stream may hold.
pub data IsPacket : Bytes → Type 0 where
  frame :
      (a b : ℕ) (rest : Bytes)
      → 9 ≤ length rest
      → le16 a b ≡ length rest
      → IsPacket (sized_frame a b rest)
  link : IsPacket header_link
  sim_card : (xs : Bytes) → is_valid_iccid_strict xs ≡ true → IsPacket xs

-- What may be left at its end: nothing, or a frame cut off behind its header.
pub data IsPartial : Bytes → Type 0 where
  whole : IsPartial []
  header : IsPartial protocol_header
  one_more : (a : ℕ) → IsPartial (0x44 ∷ 0x4e ∷ 0x59 ∷ a ∷ [])
  cut : (a b : ℕ) (rest : Bytes) → length rest < le16 a b → IsPartial (sized_frame a b rest)

pub not_iccid : (x : ℕ) (xs : Bytes) → nat_beq x 0x38 ≡ false → starts_with_iccid (x ∷ xs) ≡ false
unfolding starts_with_iccid is_valid_iccid_strict
not_iccid x [] h = ground arith
not_iccid x (y ∷ ys) h = ground arith

headed : (xs : Bytes) → starts_with protocol_header (0x44 ∷ 0x4e ∷ 0x59 ∷ xs) ≡ true
unfolding starts_with
headed xs = ground arith

linked : (xs : Bytes) → starts_with header_link (0x6c ∷ 0x69 ∷ 0x6e ∷ 0x6b ∷ xs) ≡ true
unfolding starts_with
linked xs = ground arith

not_linked : (xs : Bytes) → starts_with header_link (0x44 ∷ xs) ≡ false
unfolding starts_with
not_linked xs = ground arith

-- A frame's header leads to `split_frame`.
next_step-headed :
    (spare : ℕ) (xs : Bytes)
    → next_step spare (0x44 ∷ 0x4e ∷ 0x59 ∷ xs) ≡ split_frame spare (0x44 ∷ 0x4e ∷ 0x59 ∷ xs)
unfolding next_step
next_step-headed spare xs =
    rw (not_iccid 0x44 (0x4e ∷ 0x59 ∷ xs) refl, not_linked (0x4e ∷ 0x59 ∷ xs), headed xs)

sim_size : (xs : Bytes) → is_valid_iccid_strict xs ≡ true → length xs ≡ 20
unfolding is_valid_iccid_strict
sim_size xs h = ground arith

next_step-IsPacket :
    (spare : ℕ) {p : Bytes} (more : Bytes)
    → IsPacket p
    → next_step spare (p ++ more) ≡ packet (length p)
unfolding next_step starts_with_iccid split_frame
next_step-IsPacket spare more (frame a b rest long fits) =
    next_step-headed spare (a ∷ b ∷ (rest ++ more)) ∙ ground (arith, length-append rest more)
next_step-IsPacket spare more link =
    rw (not_iccid 0x6c (0x69 ∷ 0x6e ∷ 0x6b ∷ more) refl, linked more)
next_step-IsPacket spare more (sim_card xs valid) =
    let size : length xs ≡ 20 = sim_size xs valid in
    let enough : leb 20 (length (xs ++ more)) ≡ true = ground (arith, length-append xs more) in
    rw (enough, take-append xs more 20 (omega arith), valid, size)

next_step-IsPartial :
    (spare x : ℕ) (xs : Bytes) → IsPartial (x ∷ xs) → next_step spare (x ∷ xs) ≡ stop
unfolding split_frame
next_step-IsPartial spare x xs header = next_step-headed spare []
next_step-IsPartial spare x xs (one_more a) = next_step-headed spare (a ∷ [])
next_step-IsPartial spare x xs (cut a b rest less) =
    next_step-headed spare (a ∷ b ∷ rest) ∙ ground arith

abbrev pub concat : List Bytes → Bytes
concat [] = []
concat (p ∷ ps) = p ++ concat ps

pub IsPacket-ne-nil : {p : Bytes} → IsPacket p → 0 < length p
IsPacket-ne-nil (frame a b rest long fits) = omega arith
IsPacket-ne-nil link = omega arith
IsPacket-ne-nil (sim_card xs valid) = omega (arith, sim_size xs valid)

module _ (spare_of : Bytes → ℕ) (spare : ℕ) where
  -- One round of the loop on a packet.
  pub loop_packet :
      (fuel : ℕ) (p more : Bytes)
      → IsPacket p
      → split_loop (suc fuel) spare_of spare (p ++ more)
        ≡ prepend (p ∷ []) (split_loop fuel spare_of spare more)
  unfolding split_loop
  loop_packet fuel [] more k = absurd (omega (arith, IsPacket-ne-nil k))
  loop_packet fuel (x ∷ p) more k =
      rw (next_step-IsPacket spare more k, split_loop)
        (rw (
          take-append (x ∷ p) more (length (x ∷ p)) refl,
          drop-append (x ∷ p) more (length (x ∷ p)) refl,
        ))

  loop_partial :
      (fuel : ℕ) (rest : Bytes)
      → IsPartial rest
      → split_loop (suc fuel) spare_of spare rest ≡ ok ([], rest)
  unfolding split_loop
  loop_partial fuel [] k = refl
  loop_partial fuel (x ∷ xs) k = rw (next_step-IsPartial spare x xs k, split_loop)

  loop_packets :
      (fuel : ℕ) (ps : List Bytes) (rest : Bytes)
      → All IsPacket ps
      → IsPartial rest
      → length (concat ps ++ rest) < fuel
      → split_loop fuel spare_of spare (concat ps ++ rest) ≡ ok (ps, rest)
  loop_packets zero ps rest k t h = absurd (omega arith)
  loop_packets (suc fuel) [] rest k t h = loop_partial fuel rest t
  loop_packets (suc fuel) (p ∷ ps) rest k t h =
      let shorter : length (concat ps ++ rest) < fuel = omega (
        arith,
        length-append (p ++ concat ps) rest,
        length-append p (concat ps),
        length-append (concat ps) rest,
        IsPacket-ne-nil k.0,
      ) in
      rw (append_assoc p (concat ps) rest)
        (loop_packet fuel p (concat ps ++ rest) k.0 ∙ rw (loop_packets fuel ps rest k.1 t shorter))

-- A stream of whole packets (DNY frames of 14 bytes or more, link heartbeats, ICCIDs), followed by
-- nothing or by a frame cut off behind its header, splits into exactly those packets, in order, and
-- leaves exactly what followed, with no panic, whatever the buffers' capacities.
pub split_concat :
    (spare_of : Bytes → ℕ) (spare : ℕ) (ps : List Bytes) (rest : Bytes)
    → All IsPacket ps
    → IsPartial rest
    → split_packets spare_of spare (concat ps ++ rest) ≡ ok (ps, rest)
unfolding split_packets
split_concat spare_of spare ps rest k t =
    loop_packets spare_of spare (suc (length (concat ps ++ rest))) ps rest k t (omega arith)
