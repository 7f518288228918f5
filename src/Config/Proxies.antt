-- ===== src/Config/Proxies.antt =====
-- The trusted proxy ranges of src/config.rs, and the addresses of the standard library.
pub mod Parsing
pub mod Masks
pub mod Laws
use epistole.Prelude.{
  ℕ, ◌-◌, ◌*◌, ◌/◌, ◌%◌, ◌^◌, Bool, false, if◌then◌else◌, ◌==◌, List, [], ◌∷◌, ◌||◌,
}
use Prim.Native.Nat.{bit_and}

-- `std::net::IpAddr`: the address as a 32-bit or a 128-bit number.
pub data IpAddr : Type 0 where
  v4 v6 : ℕ → IpAddr

-- `IpAddr::to_canonical`: an address `::ffff:a.b.c.d` is the IPv4 address `a.b.c.d`.
unfoldable pub to_canonical : IpAddr → IpAddr
to_canonical (v4 a) = v4 a
to_canonical (v6 a) = if a / 2 ^ 32 == 0xffff then v4 (a % 2 ^ 32) else v6 a

pub record TrustedProxyRange : Type 0 where
  pub network : IpAddr
  pub prefix_len : ℕ

-- `u32::MAX << (32 - prefix_len)`, on 32 bits; the prefix 0 apart.
unfoldable pub mask32 : ℕ → ℕ
mask32 prefix_len = if prefix_len == 0 then 0 else (2 ^ 32 - 1) * 2 ^ (32 - prefix_len) % 2 ^ 32

unfoldable pub mask128 : ℕ → ℕ
mask128 prefix_len = if prefix_len == 0 then 0 else (2 ^ 128 - 1) * 2 ^ (128 - prefix_len) % 2 ^ 128

-- The match of `contains` on the two addresses.
unfoldable pub same_network : IpAddr → ℕ → IpAddr → Bool
same_network (v4 net) prefix_len (v4 p) =
    bit_and net (mask32 prefix_len) == bit_and p (mask32 prefix_len)
same_network (v6 net) prefix_len (v6 p) =
    bit_and net (mask128 prefix_len) == bit_and p (mask128 prefix_len)
same_network _ prefix_len _ = false

unfoldable pub contains : TrustedProxyRange → IpAddr → Bool
contains range peer = same_network range.network range.prefix_len (to_canonical peer)

abbrev pub max_len : IpAddr → ℕ
max_len (v4 a) = 32
max_len (v6 a) = 128

-- `From<IpAddr>`
unfoldable pub from_addr : IpAddr → TrustedProxyRange
from_addr addr = record { network = to_canonical addr; prefix_len = max_len (to_canonical addr) }

-- `TrustedProxyExtractor::is_trusted` of src/lib.rs
unfoldable pub is_trusted : List TrustedProxyRange → IpAddr → Bool
is_trusted [] peer = false
is_trusted (range ∷ ranges) peer = contains range peer || is_trusted ranges peer
