-- ===== src/Examples/Rpc.antt =====
-- Concrete answers of an RPC endpoint, and a codec of bytes.
use Prim.Native.Char.{Char, code}
use Prim.Native.String.{char_at}
use cr3d_x.Base.{
  ℕ, ◌+◌, ◌-◌, ◌*◌, ◌/◌, ◌%◌, ◌^◌, ◌<◌, ◌≤◌, String, ◌<>◌, ◌≡◌, refl, some, List, [], ◌∷◌, All,
  arith, sum, leb, ◌==◌, if◌then◌else◌,
}
use cr3d_x.Types.{Hex}
use cr3d_x.Types.Port.{Result, ok, threw}
use cr3d_x.State.{is_safe_integer}
use cr3d_x.Rpc.{
  le_bytes, from_le, scale_u64, decode_bytes, decode_scale, decode_scale_u64, decode_scale_u32,
  checked_intervals, runtime_intervals, with_retry,
}
use cr3d_x.Rpc.Retries.{IsOutcome, with_retry-IsOutcome, with_retry-pauses}
use cr3d_x.Rpc.Scale.{decode_scale_u64-scale_u64, AreBounded, runtime_intervals-AreBounded}

abbrev digits_of : List ℕ → String
digits_of [] = ""
digits_of (byte ∷ bytes) =
    String.◌∷◌ (char_at "0123456789abcdef" (byte / 16))
      (String.◌∷◌ (char_at "0123456789abcdef" (byte % 16)) (digits_of bytes))

abbrev to_hex : List ℕ → Hex
to_hex bytes = "0x" <> digits_of bytes

abbrev digit_value : Char → ℕ
digit_value c = if leb b'a' (code c) then code c - b'a' + 10 else code c - b'0'

abbrev bytes_of : String → List ℕ
bytes_of (String.◌∷◌ high (String.◌∷◌ low rest)) =
    (digit_value high * 16 + digit_value low) % 256 ∷ bytes_of rest
bytes_of _ = []

abbrev to_bytes : Hex → List ℕ
to_bytes (String.◌∷◌ z (String.◌∷◌ x rest)) = bytes_of rest
to_bytes _ = []

-- Wraps around: 2 ^ 64 + 258.
decode_scale_u64-scale_u64_example :
    decode_scale_u64 to_bytes (some (scale_u64 to_hex 18446744073709551874))
    ≡ some (18446744073709551874 % 2 ^ 64)
unfolding le_bytes
decode_scale_u64-scale_u64_example =
    decode_scale_u64-scale_u64 to_bytes to_hex 18446744073709551874 refl refl refl

bytes_of-below : (text : String) → All (λ b. b < 256) (bytes_of text)
bytes_of-below (String.◌∷◌ high (String.◌∷◌ low rest)) = (omega arith, bytes_of-below rest)
bytes_of-below (String.◌∷◌ high String.[]) = tt
bytes_of-below String.[] = tt

to_bytes-below : (text : Hex) → All (λ b. b < 256) (to_bytes text)
to_bytes-below (String.◌∷◌ z (String.◌∷◌ x rest)) = bytes_of-below rest
to_bytes-below (String.◌∷◌ z String.[]) = tt
to_bytes-below String.[] = tt

runtime_intervals-AreBounded_example :
    AreBounded (record { attestation_interval = 10; checkpoint_interval = 5 })
unfolding runtime_intervals checked_intervals decode_scale_u64 decode_scale_u32 decode_scale
    decode_bytes from_le is_safe_integer
runtime_intervals-AreBounded_example =
    runtime_intervals-AreBounded to_bytes (ok (some "0x0a00000000000000")) (ok (some "0x05000000"))
      to_bytes-below refl

-- The third attempt succeeds.
abbrev third : ℕ → Result ℕ
third n = if n == 3 then ok 7 else threw "timeout"

with_retry-IsOutcome_example : IsOutcome "getLogs" 4 third 1 5 (with_retry "getLogs" 4 third).result
with_retry-IsOutcome_example = with_retry-IsOutcome "getLogs" 4 third

with_retry-pauses_example : sum (with_retry "getLogs" 4 third).pauses + 1000 ≤ 8000
with_retry-pauses_example = with_retry-pauses "getLogs" 4 third (omega arith)
