-- ===== src/Examples/Links.antt =====
-- A configuration, the links that it signs, and what they verify as.
use epistole.Prelude.{
  ℕ, ◌∷◌, leb, true, ◌≡◌, refl, none, some, [], Text, text, ok, arith, ◌++◌, ◌≢◌,
}
use epistole.Prelude.Int.{pos}
use epistole.Prelude.Utf8.{is_utf8}
use epistole.Config.{Config}
use epistole.Token
use epistole.Token.{Token, sign, verify}
use epistole.Token.Fields.{IsToken}
use epistole.Handlers.Links.{verified}
use epistole.Examples.Memory.{memory}
use epistole.Examples.Letters.{letter_crypto, letters, bytes, tag}

abbrev pub secret : Text
secret = text "a secret of the operator"

abbrev pub config : Config
config = record {
  bind = text "127.0.0.1:9090";
  data_dir = text "/var/lib/epistole";
  base_url = text "https://news.org";
  brand = record { name = text "News"; from_address = text "news@news.org"; reply_to = none };
  smtp = record { host = text "relay"; port = 587; username = text "user"; password = text "pass" };
  token_secret = secret;
  send_auth_token = text "operator";
  webhook_auth_token = text "relay";
  send_cap_per_hour = 2;
  send_cap_per_day = 3;
  trusted_proxies = [];
}

abbrev pub confirm_token : Token
confirm_token = record {
  kind = Token.confirm;
  email = text "Ann@x.org";
  exp_unix = pos 100;
  generation = 0;
}

abbrev pub link : Text → Text
link payload = letters payload ++ (b'.' ∷ letters (tag (secret ++ payload)))

abbrev pub confirm_link : Text
confirm_link = link (text "c|" ++ (letters (text "Ann@x.org") ++ text "|100|0"))

abbrev pub unsubscribe_token : Token
unsubscribe_token = record confirm_token { kind = Token.unsubscribe }

abbrev pub unsubscribe_link : Text
unsubscribe_link = link (text "u|" ++ (letters (text "Ann@x.org") ++ text "|100|0"))

pub sign_confirm : sign letter_crypto confirm_token secret ≡ ok confirm_link
unfolding sign letters tag text
sign_confirm = refl

pub confirm_link_valid :
    (now : ℕ)
    → leb now 100 ≡ true
    → verified memory letter_crypto config Token.confirm confirm_link now ≡ some confirm_token
unfolding verified verify letters bytes tag text
confirm_link_valid now h = ground arith

pub IsToken-confirm : IsToken confirm_token
IsToken-confirm = record {
  email = unfold is_utf8 text in refl;
  exp_unix = omega arith;
  generation = omega arith;
}

pub secret-ne-nil : secret ≢ []
unfolding text
secret-ne-nil e = cc

pub unsubscribe_link_valid :
    (now : ℕ)
    → leb now 100 ≡ true
    → verified memory letter_crypto config Token.unsubscribe unsubscribe_link now
      ≡ some unsubscribe_token
unfolding verified verify letters bytes tag text
unsubscribe_link_valid now h = ground arith
