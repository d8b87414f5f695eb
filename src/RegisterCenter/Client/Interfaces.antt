-- ===== src/RegisterCenter/Client/Interfaces.antt =====
-- What the client takes from third parties: versions (`golang.org/x/mod/semver`), dialling and calls
-- (gRPC).
use algogateway.Common.{ℤ, pos, Bytes, Bool, Option, Error, Result, is_neg, false, ◌≡◌}
use algogateway.Protos.Messages.{UnifiedRequest, UnifiedResponse}
use algogateway.RegisterCenter.Options.{Context}

-- `IsValid`, `Major` and `Compare`, and what the package says of them: a version compares equal to
-- itself, and the order is transitive.
pub record Semver : Type 0 where
  pub is_valid : Bytes → Bool
  pub major : Bytes → Bytes
  pub compare : Bytes → Bytes → ℤ
  pub compare_self : (v : Bytes) → compare v v ≡ pos 0
  pub compare_trans :
      (u v w : Bytes)
      → is_neg (compare u v) ≡ false
      → is_neg (compare v w) ≡ false
      → is_neg (compare u w) ≡ false

-- The outcome of `grpc.Dial`: whether it called the builder of the scheme, and its error.
pub record Dialled : Type 0 where
  pub builds : Bool
  pub error : Option Error

abbrev pub Dial : Type 0
Dial = Bytes → Dialled

-- A unary call to the service of that name, in a context.
abbrev pub Rpc : Type 0
Rpc = Bytes → Context → UnifiedRequest → Result UnifiedResponse
