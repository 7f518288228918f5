-- ===== src/Tests/Proxies.antt =====
-- The theorem about trusted ranges at a concrete text and peer.
use epistole.Prelude.{
  ◌+◌, ◌*◌, ◌^◌, ◌≤◌, ◌≡◌, refl, arith, ◌↔◌, true, Text, text, Result, ok, err, text_eq,
  if◌then◌else◌,
}
use epistole.Prelude.Decimal.{parse_u8}
use epistole.Config.Proxies.{IpAddr, v4, v6, TrustedProxyRange, to_canonical, contains, max_len}
use epistole.Token.{split_once}
use epistole.Config.Proxies.Parsing.{split_range, parse_len, checked_range, from_str}
use epistole.Config.Proxies.Laws.{IsAddr, SamePrefix, from_str-contains}

abbrev ten : IpAddr
ten = v4 167772160

abbrev parse_addr : Text → Result Text IpAddr
parse_addr t =
    if text_eq t (text "10.0.0.0") then ok ten else err (text "invalid IP address syntax")

abbrev parse_int_error : Text → Text
parse_int_error t = text "invalid digit found in string"

abbrev range : TrustedProxyRange
range = record { network = ten; prefix_len = 8 }

-- `::ffff:10.0.0.1`
abbrev peer : IpAddr
peer = v6 (0xffff * 2 ^ 32 + 167772161)

parse_addr-IsAddr : (t : Text) (a : IpAddr) → parse_addr t ≡ ok a → IsAddr a
parse_addr-IsAddr t (v4 a) h = ground arith
parse_addr-IsAddr t (v6 a) h = ground arith

peer-IsAddr : IsAddr peer
peer-IsAddr = omega arith

range_lem : from_str parse_addr parse_int_error (text "10.0.0.0/8") ≡ ok range
unfolding from_str split_range split_once parse_len checked_range parse_u8 text text_eq to_canonical
range_lem = refl

from_str-contains_example :
    (addr : IpAddr) × (parse_addr (split_range parse_addr parse_int_error (text "10.0.0.0/8")).0
      ≡ ok addr)
    × (8 ≤ max_len (to_canonical addr))
    × ((contains range peer ≡ true) ↔ SamePrefix (to_canonical addr) 8 (to_canonical peer))
from_str-contains_example =
    from_str-contains parse_addr parse_int_error parse_addr-IsAddr (text "10.0.0.0/8") range peer
      peer-IsAddr range_lem
