-- ===== src/Rpc/Scale.antt =====
-- The SCALE numbers of scripts/lib/rpc.ts, and the intervals that worker/chain.ts reads with them.
use cr3d_x.Base.{
  ℕ, zero, suc, ◌/◌, ◌%◌, ◌^◌, ◌<◌, ◌≢◌, String, str_eq, eq_iff, ◌≡◌, refl, sym, ap, ◌∙◌, false,
  Bool-cases, inl, inr, ◌||◌, Option, none, some, List, [], ◌∷◌, All, length, arith,
}
use cr3d_x.Types.{Hex}
use cr3d_x.Types.Port.{Result, ok, threw, RuntimeIntervals}
use cr3d_x.State.{is_safe_integer}
use cr3d_x.Rpc.{
  le_bytes, from_le, scale_u64, decode_bytes, decode_scale, decode_scale_u64, decode_scale_u32,
  checked_intervals, runtime_intervals,
}

length-le_bytes : (width value : ℕ) → length (le_bytes width value) ≡ width
unfolding le_bytes
length-le_bytes zero value = refl
length-le_bytes (suc width) value = ap suc (length-le_bytes width (value / 256))

le_bytes-nonempty : (width value : ℕ) → le_bytes (suc width) value ≢ []
unfolding le_bytes
le_bytes-nonempty width value e = cc

from_le-le_bytes :
    (width value : ℕ) → value < 256 ^ width → from_le width (le_bytes width value) ≡ value
unfolding le_bytes from_le
from_le-le_bytes zero value small = omega arith
from_le-le_bytes (suc width) value small =
    let quotient : value / 256 < 256 ^ width = omega arith in
    let rest = from_le-le_bytes width (value / 256) quotient in omega arith

from_le-below :
    (width : ℕ) (bytes : List ℕ) → All (λ b. b < 256) bytes → from_le width bytes < 256 ^ width
unfolding from_le
from_le-below zero bytes h = omega arith
from_le-below (suc width) [] h = let rest = from_le-below width [] tt in omega arith
from_le-below (suc width) (byte ∷ bytes) (small, h) =
    let rest = from_le-below width bytes h in omega arith

decode_bytes-le_bytes :
    (width value : ℕ) → value < 256 ^ width → decode_bytes width (le_bytes width value) ≡ some value
unfolding decode_bytes
decode_bytes-le_bytes width value small =
    let full = length-le_bytes width value in
    let back = from_le-le_bytes width value small in ground arith

decode_bytes-below :
    (width : ℕ) (bytes : List ℕ) {n : ℕ}
    → All (λ b. b < 256) bytes
    → decode_bytes width bytes ≡ some n
    → n < 256 ^ width
unfolding decode_bytes
decode_bytes-below width bytes h e = let bound = from_le-below width bytes h in ground arith

distinct-false : (a b : String) → a ≢ b → str_eq a b ≡ false
distinct-false a b different = elim (Bool-cases (str_eq a b)) [
  | inl same ↦ elim (different ((eq_iff a b).0 same)) [ ]
  | inr other ↦ other
]

pub record AreBounded (intervals : RuntimeIntervals) : Type 0 where
  pub attestation : intervals.attestation_interval < 2 ^ 53
  pub checkpoint : intervals.checkpoint_interval < 2 ^ 32

module _ (hex_to_u8a : Hex → List ℕ) where
  decode_scale-below :
      (width : ℕ) (hex : Option Hex) {n : ℕ}
      → ((text : Hex) → All (λ b. b < 256) (hex_to_u8a text))
      → decode_scale hex_to_u8a width hex ≡ some n
      → n < 256 ^ width
  unfolding decode_scale
  decode_scale-below width none bytes e = cc
  decode_scale-below width (some hex) bytes e =
      elim (Bool-cases (str_eq hex "" || str_eq hex "0x")) [
        | inl empty ↦ ground (arith, empty)
        | inr full ↦ decode_bytes-below width (hex_to_u8a hex) (bytes hex) (ground (arith, full))
      ]

  -- A text that is not empty for hexToU8a is decoded by its bytes.
  decode_scale-nonempty :
      (width : ℕ) (hex : Hex)
      → hex_to_u8a "" ≡ []
      → hex_to_u8a "0x" ≡ []
      → hex_to_u8a hex ≢ []
      → decode_scale hex_to_u8a width (some hex) ≡ decode_bytes width (hex_to_u8a hex)
  unfolding decode_scale
  decode_scale-nonempty width hex no_text no_bytes full =
      let some_text = distinct-false hex "" (λ same. full (ap hex_to_u8a same ∙ no_text)) in
      let some_bytes = distinct-false hex "0x" (λ same. full (ap hex_to_u8a same ∙ no_bytes)) in
      rw some_text (rw some_bytes refl)

  -- Where hexToU8a reads back the buffer that u8aToHex wrote and reads nothing from an empty one, a number
  -- that is written as a SCALE u64 is decoded as itself modulo 2 ^ 64.
  pub decode_scale_u64-scale_u64 :
      (u8a_to_hex : List ℕ → Hex) (value : ℕ)
      → hex_to_u8a "" ≡ []
      → hex_to_u8a "0x" ≡ []
      → hex_to_u8a (u8a_to_hex (le_bytes 8 (value % 2 ^ 64))) ≡ le_bytes 8 (value % 2 ^ 64)
      → decode_scale_u64 hex_to_u8a (some (scale_u64 u8a_to_hex value)) ≡ some (value % 2 ^ 64)
  unfolding decode_scale_u64 scale_u64
  decode_scale_u64-scale_u64 u8a_to_hex value no_text no_bytes read_back =
      let full : hex_to_u8a (u8a_to_hex (le_bytes 8 (value % 2 ^ 64))) ≢ [] =
        λ empty. le_bytes-nonempty 7 (value % 2 ^ 64) (sym read_back ∙ empty) in
      decode_scale-nonempty 8 (u8a_to_hex (le_bytes 8 (value % 2 ^ 64))) no_text no_bytes full
      ∙ ap (decode_bytes 8) read_back
      ∙ decode_bytes-le_bytes 8 (value % 2 ^ 64) (omega arith)

  checked_intervals-AreBounded :
      (attestation checkpoint : Option ℕ) {intervals : RuntimeIntervals}
      → ((n : ℕ) → checkpoint ≡ some n → n < 2 ^ 32)
      → checked_intervals attestation checkpoint ≡ ok intervals
      → AreBounded intervals
  unfolding checked_intervals is_safe_integer
  checked_intervals-AreBounded none checkpoint small e = cc
  checked_intervals-AreBounded (some attestation) none small e = cc
  checked_intervals-AreBounded (some attestation) (some checkpoint) {intervals = intervals} small
        e =
      let below = small checkpoint refl in
      record { attestation = ground arith; checkpoint = ground arith }

  -- Where hexToU8a returns bytes, the intervals that are answered fit a safe integer and a u32.
  pub runtime_intervals-AreBounded :
      (attestation checkpoint : Result (Option Hex)) {intervals : RuntimeIntervals}
      → ((text : Hex) → All (λ b. b < 256) (hex_to_u8a text))
      → runtime_intervals hex_to_u8a attestation checkpoint ≡ ok intervals
      → AreBounded intervals
  unfolding runtime_intervals decode_scale_u32
  runtime_intervals-AreBounded (threw message) checkpoint bytes e = cc
  runtime_intervals-AreBounded (ok attestation) (threw message) bytes e = cc
  runtime_intervals-AreBounded (ok attestation) (ok checkpoint) bytes e =
      checked_intervals-AreBounded _ _ (λ n is_n. decode_scale-below 4 checkpoint bytes is_n) e
