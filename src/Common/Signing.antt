-- ===== src/Common/Signing.antt =====
-- Hashing, signatures and `%f` formatting: the standard library's functions, as a record that the
-- definitions take. Go's `[]byte` keys and digests are byte strings.
use mathlib.Core.Bool.{Bool}
use mathlib.Core.Option.{Option}
use hybridblockchain.Common.Bytes.{Text}
use hybridblockchain.Common.Outcome.{Call}

pub record Crypto (F : Type 0) : Type 0 where
  -- sha256.Sum256, as 32 raw bytes
  pub sha256 : Text → Text
  -- ecdh.P256().NewPublicKey on 0x04 ++ X ++ Y: whether the point is a public key
  pub on_curve : Text → Bool
  -- ecdsa.Verify of (X ++ Y, digest, r bytes, s bytes)
  pub ecdsa_verify : Text → Text → Text → Text → Bool
  -- ecdsa.Verify of (digest, r bytes, s bytes) under a nil key, at which it can panic
  pub ecdsa_verify_nil : Text → Text → Text → Call Bool
  -- hex.DecodeString
  pub hex_decode : Text → Option Text
  -- big.Int.Bytes of a coordinate: the bytes without leading zeros
  pub strip_zeros : Text → Text
  -- `%f` and `%.8f`
  pub format_f6 : F → Text
  pub format_f8 : F → Text
