-- ===== src/Mailer/Laws.antt =====
-- How src/mailer.rs connects to the relay.
use epistole.Prelude.{
  ℕ, ◌==◌, ◌≡◌, refl, inl, inr, Bool, true, false, Bool-cases, if◌then◌else◌, Text, ok,
}
use epistole.Prelude.Results.{>>=-eq-ok}
use epistole.Prelude.Effects.{map_err-eq-ok}
use epistole.Config.{Smtp}
use epistole.Mailer.{Lettre, SmtpMailer, from_config, implicit_tls_port}

-- How a transport connects: whether TLS starts with the first byte, the host and port that are
-- dialed, and the user and password.
pub record Connection : Type 0 where
  pub implicit_tls : Bool
  pub host : Text
  pub port : ℕ
  pub username : Text
  pub password : Text

-- What the documentation of `lettre` says of the builder, where `shown` is what a builder has set.
pub record LettreLaws (l : Lettre) : Type 0 where
  pub shown : l.Builder → Connection
  pub dials : l.Transport → Connection
  pub relay-shown :
      (host : Text) {b : l.Builder}
      → l.relay host ≡ ok b
      → ((shown b).implicit_tls ≡ true) × ((shown b).host ≡ host)
  pub starttls_relay-shown :
      (host : Text) {b : l.Builder}
      → l.starttls_relay host ≡ ok b
      → ((shown b).implicit_tls ≡ false) × ((shown b).host ≡ host)
  pub shown-port : (n : ℕ) (b : l.Builder) → shown (l.port n b) ≡ record (shown b) { port = n }
  pub shown-credentials :
      (user pass : Text) (b : l.Builder)
      → shown (l.credentials user pass b) ≡ record (shown b) { username = user; password = pass }
  pub dials-build : (b : l.Builder) → dials (l.build b) ≡ shown b

module _ (l : Lettre) (laws : LettreLaws l) where
  builder-shown :
      (config : Smtp) {b : l.Builder}
      → (if config.port == implicit_tls_port
          then l.relay config.host
          else l.starttls_relay config.host)
        ≡ ok b
      → ((laws.shown b).implicit_tls ≡ (config.port == implicit_tls_port))
        × ((laws.shown b).host ≡ config.host)
  builder-shown config h = elim (Bool-cases (config.port == implicit_tls_port)) [
    | inl smtps ↦ rw smtps (laws.relay-shown config.host (rw smtps at h))
    | inr submission ↦ rw submission (laws.starttls_relay-shown config.host (rw submission at h))
  ]

  -- A transport that is built from the configuration dials its host and port with its name and
  -- password, under TLS from the first byte exactly when the port is 465, else by STARTTLS.
  pub from_config-dials :
      (config : Smtp) {mailer : SmtpMailer l}
      → from_config l config ≡ ok mailer
      → laws.dials mailer.transport ≡ record {
        implicit_tls = config.port == 465;
        host = config.host;
        port = config.port;
        username = config.username;
        password = config.password;
      }
  unfolding from_config
  from_config-dials config {mailer} h =
      let (b, built, same) = >>=-eq-ok _ _ h in
      let (tls, host) = builder-shown config (map_err-eq-ok _ _ built) in
      let dialed = l.port config.port b in
      let made : SmtpMailer l = record {
        transport = l.build (l.credentials config.username config.password dialed);
      } in
      let named : made ≡ mailer = cc in
      rw
        (
          ← named,
          laws.dials-build (l.credentials config.username config.password dialed),
          laws.shown-credentials config.username config.password dialed,
          laws.shown-port config.port b,
          tls,
          host,
        )
        refl
