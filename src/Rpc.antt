-- ===== src/Rpc.antt =====
-- scripts/lib/rpc.ts: `withRetry`, and the SCALE numbers that worker/chain.ts reads with it in
-- `runtimeIntervals`. A buffer is the list of its bytes; hexToU8a and u8aToHex of @polkadot/util are
-- parameters.
pub mod Retries
pub mod Scale
use cr3d_x.Base.{
  ℕ, zero, suc, ◌+◌, ◌-◌, ◌*◌, ◌/◌, ◌%◌, ◌^◌, String, ◌<>◌, str_eq, Bool, true, false, not, ◌||◌,
  Option, none, some, List, [], ◌∷◌, ltb, if◌then◌else◌, length, decimal,
}
use cr3d_x.Types.{Hex}
use cr3d_x.Types.Port.{Result, ok, threw, RuntimeIntervals}
use cr3d_x.State.{is_safe_integer}

-- The bytes that `DataView` writes, the lowest first.
unfoldable pub le_bytes : ℕ → ℕ → List ℕ
le_bytes zero value = []
le_bytes (suc width) value = value % 256 ∷ le_bytes width (value / 256)

-- The number in the first bytes of a buffer.
unfoldable pub from_le : ℕ → List ℕ → ℕ
from_le zero bytes = 0
from_le (suc width) [] = 0
from_le (suc width) (byte ∷ bytes) = byte + 256 * from_le width bytes

-- scaleU64; setBigUint64 keeps a BigInt modulo 2 ^ 64
unfoldable pub scale_u64 : (List ℕ → Hex) → ℕ → Hex
scale_u64 u8a_to_hex value = u8a_to_hex (le_bytes 8 (value % 2 ^ 64))

unfoldable pub decode_bytes : ℕ → List ℕ → Option ℕ
decode_bytes width bytes = if ltb (length bytes) width then none else some (from_le width bytes)

-- What decodeScaleU64 and decodeScaleU32 share.
unfoldable pub decode_scale : (Hex → List ℕ) → ℕ → Option Hex → Option ℕ
decode_scale hex_to_u8a width none = none
decode_scale hex_to_u8a width (some hex) =
    if str_eq hex "" || str_eq hex "0x" then none else decode_bytes width (hex_to_u8a hex)

unfoldable pub decode_scale_u64 : (Hex → List ℕ) → Option Hex → Option ℕ
decode_scale_u64 hex_to_u8a hex = decode_scale hex_to_u8a 8 hex

unfoldable pub decode_scale_u32 : (Hex → List ℕ) → Option Hex → Option ℕ
decode_scale_u32 hex_to_u8a hex = decode_scale hex_to_u8a 4 hex

-- The tests of runtimeIntervals on the two decoded values.
unfoldable pub checked_intervals : Option ℕ → Option ℕ → Result RuntimeIntervals
checked_intervals none checkpoint = threw "Runtime interval RPC returned malformed SCALE values"
checked_intervals (some attestation) none =
    threw "Runtime interval RPC returned malformed SCALE values"
checked_intervals (some attestation) (some checkpoint) =
    if not (is_safe_integer attestation)
    then threw "Runtime interval RPC returned malformed SCALE values"
    else ok (record { attestation_interval = attestation; checkpoint_interval = checkpoint })

-- runtimeIntervals, from the answers of the two state calls
unfoldable pub runtime_intervals :
    (Hex → List ℕ) → Result (Option Hex) → Result (Option Hex) → Result RuntimeIntervals
runtime_intervals hex_to_u8a (threw message) checkpoint = threw message
runtime_intervals hex_to_u8a (ok attestation) (threw message) = threw message
runtime_intervals hex_to_u8a (ok attestation) (ok checkpoint) =
    checked_intervals (decode_scale_u64 hex_to_u8a attestation)
      (decode_scale_u32 hex_to_u8a checkpoint)

-- What withRetry does: its result, the calls of `onRetry`, and the pauses in milliseconds.
pub record Retried {ℓ} (A : Type ℓ) : Type ℓ where
  pub result : Result A
  pub noted : List (ℕ × String)
  pub pauses : List ℕ

-- sleep(1_000 * 2 ** (i - 1))
unfoldable pub backoff : ℕ → ℕ
backoff i = 1000 * 2 ^ (i - 1)

module _ {ℓ} {A : Type ℓ} (label : String) (attempts : ℕ) (fn : ℕ → Result A) where
  unfoldable pub gave_up : String → Retried A
  gave_up last = record {
    result = threw (label <> " failed after " <> decimal attempts <> " attempts: " <> last);
    noted = [];
    pauses = [];
  }

  -- One round: the answer of the attempt, and what the rounds after it do.
  unfoldable pub round : ℕ → Result A → (String → Retried A) → Retried A
  round i (ok value) rest = record { result = ok value; noted = []; pauses = [] }
  round i (threw message) rest = record {
    result = (rest message).result;
    noted = (i, message) ∷ (rest message).noted;
    pauses = if ltb i attempts then backoff i ∷ (rest message).pauses else (rest message).pauses;
  }

  -- The loop at attempt i, with the attempts that remain.
  unfoldable pub retry_loop : ℕ → ℕ → String → Retried A
  retry_loop zero i last = gave_up last
  retry_loop (suc remaining) i last = round i (fn i) (retry_loop remaining (suc i))

  -- withRetry; `fn i` answers the call of the i-th attempt, and `onRetry` does not throw.
  unfoldable pub with_retry : Retried A
  with_retry = retry_loop attempts 1 "undefined"
