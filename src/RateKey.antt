-- ===== src/RateKey.antt =====
-- `TrustedProxyExtractor` of src/lib.rs: the key of the per-address rate limiter.
pub mod Trust
use epistole.Prelude.{
  ℕ, [], ◌∷◌, List, Bool, true, false, ◌||◌, none, some, Option, if◌then◌else◌, ◌==◌, Text, Result,
  ok, err,
}
use epistole.Prelude.Trim.{trim}
use epistole.Config.Proxies.{IpAddr, TrustedProxyRange, to_canonical, is_trusted}

unfoldable pub has_comma : Text → Bool
has_comma [] = false
has_comma (c ∷ s) = c == b',' || has_comma s

-- `rsplit(',').next()`: what follows the last comma, or the whole text.
unfoldable pub last_entry : Text → Text
unfolding has_comma
last_entry [] = []
last_entry (c ∷ s) = if has_comma s then last_entry s else if c == b',' then s else c ∷ s

-- `GovernorError::UnableToExtractKey`
pub data GovernorError : Type 0 where
  unable_to_extract_key : GovernorError

-- The address of the last `X-Forwarded-For` entry, if the header is there and readable. The
-- conversion of a header to a `str` and the parser of addresses are arguments.
module _ (to_str : Text → Option Text) (parse_ip : Text → Option IpAddr) where
  unfoldable pub forwarded : Option Text → Option IpAddr
  forwarded none = none
  forwarded (some xff) = elim (to_str xff) [ none ↦ none | some s ↦ parse_ip (trim (last_entry s)) ]

  abbrev or_peer : Option IpAddr → IpAddr → IpAddr
  or_peer none peer = peer
  or_peer (some ip) peer = ip

  -- `extract`, from the peer of `ConnectInfo` and the `X-Forwarded-For` header.
  unfoldable pub extract :
      List TrustedProxyRange → Option IpAddr → Option Text → Result GovernorError IpAddr
  extract trusted none xff = err unable_to_extract_key
  extract trusted (some ip) xff =
      let peer = to_canonical ip in
      if is_trusted trusted peer then ok (or_peer (forwarded xff) peer) else ok peer
