-- ===== src/Wire/Gzip.antt =====
-- The panic that the splitter's gzip branch can raise.
use iot_zinx.Shared.{
  ℕ, zero, suc, ◌+◌, ◌≡◌, ◌≢◌, ◌≤◌, ◌<◌, refl, ◌∙◌, arith, Bytes, List, [], ◌∷◌, ◌++◌, append_assoc,
  length, length-append, drop, false, panic, All,
}
use iot_zinx.Wire.Frame.{protocol_header, header_link}
use iot_zinx.Wire.Splitting.{IsPacket, concat, not_iccid, IsPacket-ne-nil, loop_packet}
use iot_zinx.Wire.Parser.{is_valid_iccid_strict}
use iot_zinx.Wire.Splitter.{
  starts_with, starts_with_iccid, find_gzip_end, is_gzip, detect_special, next_step, fault,
  split_loop, split_packets,
}

-- The step on such a buffer is the fault.
gzip_fault :
    (spare : ℕ) (xs : Bytes)
    → 7 ≤ length xs
    → find_gzip_end 10 (drop 7 xs) ≡ 100
    → length xs + 3 + spare < 100
    → next_step spare (0x1f ∷ 0x8b ∷ 0x08 ∷ xs) ≡ fault
unfolding next_step starts_with starts_with_iccid is_valid_iccid_strict detect_special is_gzip
gzip_fault spare xs long none_behind small = ground arith

-- A byte that begins neither "DNY" nor "link" nor an ICCID.
abbrev pub IsNoStart : ℕ → Type 0
IsNoStart b = (b ≢ 0x44) × (b ≢ 0x6c) × (b ≢ 0x38)

not_dny : (x : ℕ) (xs : Bytes) → x ≢ 0x44 → starts_with protocol_header (x ∷ xs) ≡ false
unfolding starts_with
not_dny x xs h = ground (arith, h)

not_link : (x : ℕ) (xs : Bytes) → x ≢ 0x6c → starts_with header_link (x ∷ xs) ≡ false
unfolding starts_with
not_link x xs h = ground (arith, h)

-- Where nothing begins, the end of the gzip data is taken to be at 100.
no_start-end : (i : ℕ) (xs : Bytes) → All IsNoStart xs → find_gzip_end i xs ≡ 100
unfolding find_gzip_end
no_start-end i [] h = refl
no_start-end i (x ∷ xs) h =
    let later = no_start-end (i + 1) xs h.1 in
    rw (not_dny x xs h.0.0, not_link x xs h.0.1, not_iccid x xs (ground (arith, h.0.2)), later)
      (ground arith)

All-drop : (n : ℕ) (xs : Bytes) → All IsNoStart xs → All IsNoStart (drop n xs)
All-drop zero xs h = h
All-drop (suc n) [] h = tt
All-drop (suc n) (x ∷ xs) h = All-drop n xs h.1

fault_panics :
    (spare_of : Bytes → ℕ) (fuel spare x : ℕ) (xs : Bytes)
    → next_step spare (x ∷ xs) ≡ fault
    → split_loop (suc fuel) spare_of spare (x ∷ xs) ≡ panic
unfolding split_loop
fault_panics spare_of fuel spare x xs e = rw (e, split_loop)

module _ (spare_of : Bytes → ℕ) (spare : ℕ) (xs : Bytes) (long : 7 ≤ length xs)
    (nothing : All IsNoStart xs) (small : length xs + 3 + spare < 100) where
  abbrev gzip : Bytes
  gzip = 0x1f ∷ 0x8b ∷ 0x08 ∷ xs

  gzip_panics : (fuel : ℕ) → split_loop (suc fuel) spare_of spare gzip ≡ panic
  gzip_panics fuel =
      fault_panics spare_of fuel spare 0x1f (0x8b ∷ 0x08 ∷ xs)
        (gzip_fault spare xs long (no_start-end 10 (drop 7 xs) (All-drop 7 xs nothing)) small)

  packets_panic :
      (fuel : ℕ) (ps : List Bytes)
      → All IsPacket ps
      → length (concat ps ++ gzip) < fuel
      → split_loop fuel spare_of spare (concat ps ++ gzip) ≡ panic
  packets_panic zero ps k h = absurd (omega arith)
  packets_panic (suc fuel) [] k h = gzip_panics fuel
  packets_panic (suc fuel) (p ∷ ps) k h =
      let shorter : length (concat ps ++ gzip) < fuel = omega (
        arith,
        length-append (p ++ concat ps) gzip,
        length-append p (concat ps),
        length-append (concat ps) gzip,
        IsPacket-ne-nil k.0,
      ) in
      rw (append_assoc p (concat ps) gzip) (
        loop_packet spare_of spare fuel p (concat ps ++ gzip) k.0
        ∙ rw (packets_panic fuel ps k.1 shorter))

-- A stream of whole packets, of which there may be none, panics where it ends in ten bytes or more
-- that begin with the gzip signature and hold none of the bytes `D`, `l` and `8` behind it, if from
-- the signature on the buffer has a capacity below 100: the packets in front are lost.
pub split_gzip_panics :
    (spare_of : Bytes → ℕ) (spare : ℕ) (ps : List Bytes) (xs : Bytes)
    → All IsPacket ps
    → 7 ≤ length xs
    → All IsNoStart xs
    → length xs + 3 + spare < 100
    → split_packets spare_of spare (concat ps ++ (0x1f ∷ 0x8b ∷ 0x08 ∷ xs)) ≡ panic
unfolding split_packets
split_gzip_panics spare_of spare ps xs k long nothing small =
    packets_panic spare_of spare xs long nothing small
      (suc (length (concat ps ++ (0x1f ∷ 0x8b ∷ 0x08 ∷ xs)))) ps k (omega arith)
