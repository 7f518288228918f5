-- ===== src/RateKey/Trust.antt =====
-- Who decides the rate-limit key of src/lib.rs.
use epistole.Prelude.{
  ◌≡◌, sym, refl, ap, [], ◌∷◌, ◌++◌, List, true, false, Bool-cases, inl, inr, none, some, Option,
  Text, arith,
}
use epistole.Config.Proxies.{IpAddr, TrustedProxyRange}
use epistole.Prelude.Trim.{trim}
use epistole.RateKey.{extract, forwarded, last_entry, has_comma}

last_entry_lem : (s : Text) → has_comma s ≡ false → last_entry s ≡ s
unfolding last_entry has_comma
last_entry_lem [] h = refl
last_entry_lem (c ∷ s) h = ground (arith, last_entry_lem s)

has_comma-append : (s t : Text) → has_comma t ≡ true → has_comma (s ++ t) ≡ true
unfolding has_comma
has_comma-append [] t h = h
has_comma-append (c ∷ s) t h = ground (arith, has_comma-append s t h)

last_entry-comma : (t : Text) → last_entry (b',' ∷ t) ≡ last_entry t
unfolding last_entry
last_entry-comma t = elim (Bool-cases (has_comma t)) [
  | inl more ↦ rw more refl
  | inr last ↦ rw last (sym (last_entry_lem t last))
]

-- What stands before a comma does not count.
last_entry-append : (s t : Text) → last_entry (s ++ (b',' ∷ t)) ≡ last_entry t
unfolding last_entry has_comma
last_entry-append [] t = last_entry-comma t
last_entry-append (c ∷ s) t = rw (has_comma-append s (b',' ∷ t) refl) (last_entry-append s t)

module _ (to_str : Text → Option Text) (parse_ip : Text → Option IpAddr) where
  forwarded-appended :
      (claimed appended : Text)
      → to_str (claimed ++ (b',' ∷ appended)) ≡ some (claimed ++ (b',' ∷ appended))
      → to_str appended ≡ some appended
      → forwarded to_str parse_ip (some (claimed ++ (b',' ∷ appended)))
        ≡ forwarded to_str parse_ip (some appended)
  unfolding forwarded
  forwarded-appended claimed appended h k =
      ground (arith, h, k, ap (λ s. parse_ip (trim s)) (last_entry-append claimed appended))

  -- What a client puts into `X-Forwarded-For` before the entry that the nearest proxy appends does
  -- not change its rate-limit key, if both headers are readable.
  pub extract-appended :
      (trusted : List TrustedProxyRange) (peer : Option IpAddr) (claimed appended : Text)
      → to_str (claimed ++ (b',' ∷ appended)) ≡ some (claimed ++ (b',' ∷ appended))
      → to_str appended ≡ some appended
      → extract to_str parse_ip trusted peer (some (claimed ++ (b',' ∷ appended)))
        ≡ extract to_str parse_ip trusted peer (some appended)
  unfolding extract
  extract-appended trusted none claimed appended h k = refl
  extract-appended trusted (some ip) claimed appended h k =
      rw (forwarded-appended claimed appended h k) refl
