-- ===== src/Config/Proxies/Laws.antt =====
-- The trusted ranges of src/config.rs: what a text parses to, and which peers it contains.
use epistole.Prelude.{
  ℕ, ◌+◌, ◌-◌, ◌/◌, ◌^◌, ◌≤◌, ◌<◌, ◌≡◌, sym, ◌↔◌, true, ==_iff, Text, Result, ok, subst, arith,
}
use epistole.Prelude.Results.{>>=-eq-ok}
use epistole.Prelude.Effects.{map_err-eq-ok}
use epistole.Config.Proxies.{
  IpAddr, v4, v6, to_canonical, TrustedProxyRange, mask32, mask128, same_network, contains, max_len,
}
use epistole.Config.Proxies.Parsing.{split_range, parse_len, checked_range, from_str}
use epistole.Config.Proxies.Masks.{mask_ones, same_front}

-- The numbers that are addresses.
abbrev pub IsAddr : IpAddr → Type 0
IsAddr (v4 a) = a < 2 ^ 32
IsAddr (v6 a) = a < 2 ^ 128

to_canonical-IsAddr : (a : IpAddr) → IsAddr a → IsAddr (to_canonical a)
unfolding to_canonical
to_canonical-IsAddr (v4 a) h = h
to_canonical-IsAddr (v6 a) h = ground arith

-- Two addresses of one family that agree on their first `n` digits.
abbrev pub SamePrefix : IpAddr → ℕ → IpAddr → Type 0
SamePrefix (v4 a) n (v4 b) = a / 2 ^ (32 - n) ≡ b / 2 ^ (32 - n)
SamePrefix (v6 a) n (v6 b) = a / 2 ^ (128 - n) ≡ b / 2 ^ (128 - n)
SamePrefix _ n _ = ⊥

same_network_iff :
    (net : IpAddr) (n : ℕ) (peer : IpAddr)
    → IsAddr net
    → IsAddr peer
    → n ≤ max_len net
    → (same_network net n peer ≡ true) ↔ SamePrefix net n peer
unfolding same_network mask32 mask128
same_network_iff (v4 a) n (v4 b) ha hb h =
    let sum : 32 - n + n ≡ 32 = omega arith in
    let fronts =
      same_front (32 - n) n a b (subst (λ w. a < 2 ^ w) (sym sum) ha)
        (subst (λ w. b < 2 ^ w) (sym sum) hb) in
    rw (mask_ones 32 n h) (λ e. fronts.0 ((==_iff _ _).0 e), λ e. (==_iff _ _).1 (fronts.1 e))
same_network_iff (v6 a) n (v6 b) ha hb h =
    let sum : 128 - n + n ≡ 128 = omega arith in
    let fronts =
      same_front (128 - n) n a b (subst (λ w. a < 2 ^ w) (sym sum) ha)
        (subst (λ w. b < 2 ^ w) (sym sum) hb) in
    rw (mask_ones 128 n h) (λ e. fronts.0 ((==_iff _ _).0 e), λ e. (==_iff _ _).1 (fronts.1 e))
same_network_iff (v4 a) n (v6 b) ha hb h = (λ e. ground arith, λ e. absurd e)
same_network_iff (v6 a) n (v4 b) ha hb h = (λ e. ground arith, λ e. absurd e)

module _ (parse_addr : Text → Result Text IpAddr) (parse_int_error : Text → Text) where
  checked_range-ok :
      (s : Text) (network : IpAddr) (n : ℕ) (range : TrustedProxyRange)
      → checked_range parse_addr parse_int_error s network n ≡ ok range
      → (range.network ≡ network) × (range.prefix_len ≤ max_len network)
  unfolding checked_range
  checked_range-ok s network n range e = ground arith

  -- If addresses parse to 32-bit or 128-bit numbers, a text that parses to a trusted range names an
  -- address, and the range has a length that fits the family of the address in its canonical form.
  -- It contains a peer exactly when the canonical forms of the two are of one family and agree on
  -- that many leading digits.
  pub from_str-contains :
      ((t : Text) (a : IpAddr) → parse_addr t ≡ ok a → IsAddr a)
      → (s : Text) (range : TrustedProxyRange) (peer : IpAddr) → IsAddr peer
      → from_str parse_addr parse_int_error s ≡ ok range
      → (addr : IpAddr) × (parse_addr (split_range parse_addr parse_int_error s).0 ≡ ok addr)
        × (range.prefix_len ≤ max_len (to_canonical addr))
        × ((contains range peer ≡ true)
            ↔ SamePrefix (to_canonical addr) range.prefix_len (to_canonical peer))
  unfolding from_str contains
  from_str-contains addresses s range peer h e =
      let (addr, parsed, e1) = >>=-eq-ok _ _ e in
      let (n, len, e2) =
        >>=-eq-ok
          (parse_len parse_addr parse_int_error s (max_len (to_canonical addr))
            (split_range parse_addr parse_int_error s).1)
          (λ n. checked_range parse_addr parse_int_error s (to_canonical addr) n) e1 in
      let (at, bound) = checked_range-ok s (to_canonical addr) n range e2 in
      let read = map_err-eq-ok _ _ parsed in
      let network = to_canonical-IsAddr addr (addresses _ addr read) in
      let same =
        same_network_iff (to_canonical addr) range.prefix_len (to_canonical peer) network
          (to_canonical-IsAddr peer h) bound in
      (
        addr,
        read,
        bound,
        subst
            (λ a.
              (same_network a range.prefix_len (to_canonical peer) ≡ true)
              ↔ SamePrefix (to_canonical addr) range.prefix_len (to_canonical peer))
            (sym at) same,
      )
