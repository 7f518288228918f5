-- ===== src/Examples/Relay.antt =====
-- An instance of `Lettre`: a transport is the connection that it makes.
use epistole.Prelude.{ℕ, ◌≡◌, refl, true, false, [], Text, Bool, Result, ok}
use epistole.Mailer.{Lettre}
use epistole.Mailer.Laws.{Connection, LettreLaws}
use epistole.Examples.Memory.{Memory}

abbrev pub begun : Bool → ℕ → Text → Connection
begun tls port host = record {
  implicit_tls = tls;
  host = host;
  port = port;
  username = [];
  password = [];
}

pub begun-shown :
    (tls : Bool) (port : ℕ) (host : Text) {b : Connection}
    → ◌≡◌ {A = Result Text Connection} (ok (begun tls port host)) (ok b)
    → (b.implicit_tls ≡ tls) × (b.host ≡ host)
begun-shown tls port host {b} h =
    let same : begun tls port host ≡ b = cc in rw (← same) (refl, refl)

abbrev pub relay : Lettre
relay = record {
  World = Memory;
  Message = ℕ;
  Response = Unit {0};
  Builder = Connection;
  Transport = Connection;
  relay = λ host. ok (begun true 465 host);
  starttls_relay = λ host. ok (begun false 587 host);
  port = λ n b. record b { port = n };
  credentials = λ user pass b. record b { username = user; password = pass };
  build = λ b. b;
  send = λ t m w. (ok tt, w);
  Stub = Unit {0};
  new_ok = tt;
  new_error = tt;
  stub_send = λ t m w. (ok tt, w);
  messages = λ t w. [];
}

unfoldable pub relay_laws : LettreLaws relay
relay_laws = record {
  shown = λ b. b;
  dials = λ t. t;
  relay-shown = λ host {b} h. begun-shown true 465 host h;
  starttls_relay-shown = λ host {b} h. begun-shown false 587 host h;
  shown-port = λ n b. refl;
  shown-credentials = λ user pass b. refl;
  dials-build = λ b. refl;
}
