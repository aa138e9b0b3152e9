-- ===== src/Wire/Progress.antt =====
-- The splitter's loop ends: every round goes on by a byte at least, and a decoded text is shorter
-- than the text.
use Prim.Native.Nat.{min}
use iot_zinx.Shared.{
  ℕ, zero, suc, ◌+◌, ◌≡◌, ◌≤◌, ◌<◌, inl, inr, refl, arith, Bytes, List, [], ◌∷◌, true, length, take,
  drop, length-take, length-drop, none, some, ok, err, panic, Option-cases, Bool-cases,
}
use iot_zinx.Wire.Packet.{hex_decode}
use iot_zinx.Wire.Splitter.{
  find_header, find_hex_data_end, is_hex_encoded_data, skip_length, detect_special, split_frame,
  next_step, Step, packet, stop, fault, decode, skip, Split, prepend, split_loop, split_packets,
}

-- What each step promises about the bytes that it takes.
abbrev Advances : Bytes → Step → Type 0
Advances xs (packet n) = 1 ≤ n
Advances xs stop = Unit
Advances xs fault = Unit
Advances xs (decode n decoded otherwise) = (1 ≤ n) × (1 ≤ otherwise) × (length decoded < length xs)
Advances xs (skip n) = 1 ≤ n

find_header-pos : (limit i : ℕ) (xs : Bytes) (j : ℕ) → find_header limit i xs ≡ some j → i ≤ j
unfolding find_header
find_header-pos limit i [] j h = cc
find_header-pos zero i (x ∷ xs) j h = cc
find_header-pos (suc limit) i (x ∷ xs) j h = ground (arith, find_header-pos limit (i + 1) xs j)

skip_length-pos : (xs : Bytes) → 1 ≤ skip_length xs
unfolding skip_length
skip_length-pos [] = omega arith
skip_length-pos (x ∷ xs) = elim (Option-cases (find_header 49 1 xs)) [
  | inl e ↦ rw e (ground arith)
  | inr (j, e) ↦ rw e (ground (arith, find_header-pos 49 1 xs j e))
]

length-hex_decode :
    (xs : Bytes) (ys : Bytes) → hex_decode xs ≡ some ys → length ys + length ys ≡ length xs
unfolding hex_decode
length-hex_decode [] ys h = ground arith
length-hex_decode (x ∷ []) ys h = cc
length-hex_decode (x ∷ y ∷ rest) ys h = elim (Option-cases (hex_decode rest)) [
  | inl e ↦ ground (arith, e)
  | inr (zs, e) ↦ ground (arith, e, length-hex_decode rest zs e)
]

split_frame-Advances : (spare : ℕ) (xs : Bytes) → Advances xs (split_frame spare xs)
unfolding split_frame
split_frame-Advances spare (x ∷ y ∷ z ∷ a ∷ b ∷ xs) = ground arith
split_frame-Advances spare xs = tt

-- Six bytes or more that count as hexadecimal begin with a digit.
hex_data-pos : (xs : Bytes) (k : ℕ) → is_hex_encoded_data xs k ≡ true → 1 ≤ find_hex_data_end xs
unfolding is_hex_encoded_data find_hex_data_end
hex_data-pos [] zero h = cc
hex_data-pos [] (suc k) h = absurd (ground arith)
hex_data-pos (x ∷ xs) zero h = cc
hex_data-pos (x ∷ xs) (suc k) h = ground arith

find_hex_data_end-le : (xs : Bytes) → find_hex_data_end xs ≤ length xs
unfolding find_hex_data_end
find_hex_data_end-le [] = omega arith
find_hex_data_end-le (x ∷ xs) = ground (arith, find_hex_data_end-le xs)

-- The text of the digits in front decodes to fewer bytes than are ahead.
decode-Advances :
    (xs decoded : Bytes)
    → is_hex_encoded_data xs (min (length xs) 100) ≡ true
    → hex_decode (take (find_hex_data_end xs) xs) ≡ some decoded
    → Advances xs (decode (find_hex_data_end xs) decoded (skip_length xs))
decode-Advances xs decoded h e =
    let pos : 1 ≤ find_hex_data_end xs = hex_data-pos xs _ h in
    (
      pos,
      skip_length-pos xs,
      omega (
        arith,
        find_hex_data_end-le xs,
        length-take (find_hex_data_end xs) xs,
        length-hex_decode _ decoded e,
      ),
    )

hex-Advances :
    (xs : Bytes)
    → is_hex_encoded_data xs (min (length xs) 100) ≡ true
    → Advances xs (elim (hex_decode (take (find_hex_data_end xs) xs)) [
      | none ↦ skip (skip_length xs)
      | some decoded ↦ decode (find_hex_data_end xs) decoded (skip_length xs)
    ])
hex-Advances xs h = elim (Option-cases (hex_decode (take (find_hex_data_end xs) xs))) [
  | inl e ↦ rw e (skip_length-pos xs)
  | inr (decoded, e) ↦ rw e (decode-Advances xs decoded h e)
]

detect_special-Advances : (spare : ℕ) (xs : Bytes) → Advances xs (detect_special spare xs)
unfolding detect_special
detect_special-Advances spare xs =
    elim (Bool-cases (is_hex_encoded_data xs (min (length xs) 100))) [
      | inl h ↦ rw h (ground (arith, hex-Advances xs h, skip_length-pos xs))
      | inr h ↦ rw h (ground (arith, skip_length-pos xs))
    ]

next_step-Advances : (spare : ℕ) (xs : Bytes) → Advances xs (next_step spare xs)
unfolding next_step
next_step-Advances spare xs =
    ground (arith, split_frame-Advances spare xs, detect_special-Advances spare xs)

-- The loop has not run out of fuel.
abbrev pub HasEnded : Split → Type 0
HasEnded (ok r) = Unit
HasEnded (err e) = ⊥
HasEnded panic = Unit

prepend-HasEnded : (found : List Bytes) (r : Split) → HasEnded r → HasEnded (prepend found r)
prepend-HasEnded found (ok r) h = h
prepend-HasEnded found (err e) h = h
prepend-HasEnded found panic h = h

module _ (spare_of : Bytes → ℕ) (fuel : ℕ)
    (rest_ends : (spare : ℕ) (ys : Bytes)
      → length ys < fuel
      → HasEnded (split_loop fuel spare_of spare ys))
    (spare x : ℕ) (xs : Bytes) (enough : length (x ∷ xs) < suc fuel) where
  drop_ends : (n : ℕ) → 1 ≤ n → HasEnded (split_loop fuel spare_of spare (drop n (x ∷ xs)))
  drop_ends n h = rest_ends spare (drop n (x ∷ xs)) (omega (arith, length-drop n (x ∷ xs)))

  decoded_ends :
      (n otherwise : ℕ) (r : Split)
      → 1 ≤ n
      → 1 ≤ otherwise
      → HasEnded r
      → HasEnded (elim r [
        | ok ([], rest) ↦ split_loop fuel spare_of spare (drop otherwise (x ∷ xs))
        | ok (found ∷ more, rest) ↦
            prepend (found ∷ more) (split_loop fuel spare_of spare (drop n (x ∷ xs)))
        | err e ↦ err e
        | panic ↦ panic
      ])
  decoded_ends n otherwise (ok ([], rest)) p q h = drop_ends otherwise q
  decoded_ends n otherwise (ok (found ∷ more, rest)) p q h =
      prepend-HasEnded (found ∷ more) _ (drop_ends n p)
  decoded_ends n otherwise (err e) p q h = h
  decoded_ends n otherwise panic p q h = tt

  round_ends :
      (s : Step)
      → Advances (x ∷ xs) s
      → next_step spare (x ∷ xs) ≡ s
      → HasEnded (split_loop (suc fuel) spare_of spare (x ∷ xs))
  unfolding split_loop
  round_ends (packet n) h e =
      rw (e, split_loop) (prepend-HasEnded (take n (x ∷ xs) ∷ []) _ (drop_ends n h))
  round_ends stop h e = rw (e, split_loop) tt
  round_ends fault h e = rw (e, split_loop) tt
  round_ends (decode n decoded otherwise) h e =
      rw (e, split_loop)
        (decoded_ends n otherwise _ h.0 h.1 (rest_ends (spare_of decoded) decoded (omega arith)))
  round_ends (skip n) h e = rw (e, split_loop) (drop_ends n h)

loop_ends :
    (spare_of : Bytes → ℕ) (fuel spare : ℕ) (xs : Bytes)
    → length xs < fuel
    → HasEnded (split_loop fuel spare_of spare xs)
unfolding split_loop
loop_ends spare_of zero spare xs h = absurd (omega arith)
loop_ends spare_of (suc fuel) spare [] h = tt
loop_ends spare_of (suc fuel) spare (x ∷ xs) h =
    round_ends spare_of fuel (loop_ends spare_of fuel) spare x xs h (next_step spare (x ∷ xs))
      (next_step-Advances spare (x ∷ xs)) refl

-- On every buffer the splitter ends: it returns packets and a rest, or panics.
pub split_ends :
    (spare_of : Bytes → ℕ) (spare : ℕ) (buffer : Bytes)
    → HasEnded (split_packets spare_of spare buffer)
unfolding split_packets
split_ends spare_of spare buffer =
    loop_ends spare_of (suc (length buffer)) spare buffer (omega arith)
