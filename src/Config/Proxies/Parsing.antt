-- ===== src/Config/Proxies/Parsing.antt =====
-- `TrustedProxyRange::from_str` of src/config.rs: an address, or an address and a prefix length.
use epistole.Prelude.{
  ℕ, ◌++◌, if◌then◌else◌, ltb, Option, none, some, Text, text, Result, ok, err, map_err, ok_or,
}
use epistole.Prelude.Results.{◌>>=◌}
use epistole.Prelude.Decimal.{parse_u8, show_u64}
use epistole.Token.{split_once}
use epistole.Config.Proxies.{IpAddr, TrustedProxyRange, to_canonical, max_len}

-- `IpAddr::from_str` and the display of `ParseIntError` for a text; an error is its display.
module _ (parse_addr : Text → Result Text IpAddr) (parse_int_error : Text → Text) where
  -- The address part and the length part.
  unfoldable pub split_range : Text → Text × Option Text
  unfolding split_once
  split_range s = elim (split_once b'/' s) [
    | none ↦ (s, none)
    | some (addr, len) ↦ (addr, some len)
  ]

  unfoldable pub parse_len : Text → ℕ → Option Text → Result Text ℕ
  parse_len s most none = ok most
  parse_len s most (some len) =
      ok_or (parse_u8 len) (s ++ text ": invalid prefix length: " ++ parse_int_error len)

  -- The length, checked against the family of the network.
  unfoldable pub checked_range : Text → IpAddr → ℕ → Result Text TrustedProxyRange
  checked_range s network prefix_len =
      if ltb (max_len network) prefix_len
      then err (
          s
          ++ text ": prefix length /"
          ++ show_u64 prefix_len
          ++ text " exceeds /"
          ++ show_u64 (max_len network)
          ++ text " for this address family")
      else ok (record { network = network; prefix_len = prefix_len })

  unfoldable pub from_str : Text → Result Text TrustedProxyRange
  unfolding split_range parse_len checked_range
  from_str s = do
    addr ← map_err (parse_addr (split_range s).0) (λ e. s ++ text ": invalid address: " ++ e)
    prefix_len ← parse_len s (max_len (to_canonical addr)) (split_range s).1
    checked_range s (to_canonical addr) prefix_len
