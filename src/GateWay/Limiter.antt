-- ===== src/GateWay/Limiter.antt =====
-- Common/AddrLimiter/AddrLimiter.go: the list of addresses that may call.
use algogateway.Common.{
  Bytes, Error, Bool, true, false, Option, none, some, Dict, lookup, text, Result, ok, err, [], ◌∷◌,
  if◌then◌else◌,
}
use algogateway.GateWay.Interfaces.{HttpDeps}

abbrev pub white_list : Dict Bool
white_list = (text "127.0.0.1", true) ∷ []

-- `IPEnable`: whether the address may call, and the error if not.
unfoldable pub ip_enable : Bytes → Bool × Option Error
ip_enable ip = elim (lookup ip white_list) [
  | some enable ↦ if enable then (true, none) else (false, some (text "ip check failed"))
  | none ↦ (false, some (text "ip check failed"))
]

module _ (deps : HttpDeps) where
  open deps use {is_ip, split_host}

  -- `get_ip`.
  unfoldable get_ip : Bytes → Result Bytes
  get_ip addr = elim (split_host addr) [
    | err e ↦ err e
    | ok ip ↦ if is_ip ip then ok ip else err (text "ip parse invalid")
  ]

  -- `AddrEnabel`.
  unfoldable addr_enabel : Bytes → Bool × Option Error
  unfolding get_ip ip_enable
  addr_enabel addr = elim (get_ip addr) [ err e ↦ (false, some e) | ok ip ↦ ip_enable ip ]
