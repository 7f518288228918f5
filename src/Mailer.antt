-- ===== src/Mailer.antt =====
-- src/mailer.rs: the transports to the relay, over `lettre`.
pub mod Laws
use epistole.Prelude.{ℕ, ◌==◌, if◌then◌else◌, ◌++◌, Text, text, Result, map_err, List, length}
use epistole.Prelude.Results.{◌>>=◌}
use epistole.Prelude.Effects
use epistole.Prelude.Effects.{Exec, call, pure}
use epistole.Error.{Error, smtp}
use epistole.Config.{Smtp}

-- What the module uses of `lettre`: `AsyncSmtpTransport`, its builder, and `AsyncStubTransport`.
-- An error is its display.
pub record Lettre : Type 1 where
  pub World : Type 0
  pub Message : Type 0
  pub Response : Type 0
  pub Builder : Type 0
  pub Transport : Type 0
  pub relay : Text → Result Text Builder
  pub starttls_relay : Text → Result Text Builder
  pub port : ℕ → Builder → Builder
  pub credentials : Text → Text → Builder → Builder
  pub build : Builder → Transport
  pub send : Transport → Message → Exec World Text Response
  pub Stub : Type 0
  pub new_ok : Stub
  pub new_error : Stub
  pub stub_send : Stub → Message → Exec World Text (Unit {0})
  pub messages : Stub → World → List Message

abbrev pub implicit_tls_port : ℕ
implicit_tls_port = 465

module _ (l : Lettre) where
  open l use {World, Message, Response, Builder, Transport}

  pub record SmtpMailer : Type 0 where
    pub transport : Transport

  pub record StubMailer : Type 0 where
    pub transport : l.Stub

  -- `SmtpMailer::from_config`
  unfoldable pub from_config : Smtp → Result Error SmtpMailer
  from_config config = do
    builder ←
        map_err
          (if config.port == implicit_tls_port
            then l.relay config.host
            else l.starttls_relay config.host)
          (λ e. smtp (text "build transport for " ++ config.host ++ text ": " ++ e))
    Result.ok (record {
      transport =
          l.build (l.credentials config.username config.password (l.port config.port builder));
    })

  -- `send` of `SmtpMailer`
  unfoldable pub send : SmtpMailer → Message → Exec World Error (Unit {0})
  send mailer message =
      Effects.◌>>=◌ (call (l.send mailer.transport message) (λ e. smtp (text "relay send: " ++ e)))
        (λ _. pure tt)

  -- `StubMailer::accepting` and `rejecting`
  unfoldable pub accepting : StubMailer
  accepting = record { transport = l.new_ok }

  unfoldable pub rejecting : StubMailer
  rejecting = record { transport = l.new_error }

  unfoldable pub sent_count : StubMailer → World → ℕ
  sent_count mailer w = length (l.messages mailer.transport w)

  -- `send` of `StubMailer`
  unfoldable pub stub_send : StubMailer → Message → Exec World Error (Unit {0})
  stub_send mailer message =
      call (l.stub_send mailer.transport message)
        (λ e. smtp (text "stub mailer configured to reject"))
