-- ===== src/Boot.antt =====
-- `Store::open` of src/store.rs and `main` of src/main.rs: what happens before the server listens.
-- Logging is left out.
pub mod Laws
use epistole.Prelude.{ℕ, ◌*◌, ◌++◌, Option, none, some, Text, text, Result, ok, err, map_err}
use epistole.Prelude.Effects.{Exec, call, lift, pure, ◌>>=◌, ◌>>◌}
use epistole.Error.{Error, store, config}
use epistole.Error
use epistole.Config.{Config}
use epistole.Config.Proxies.{IpAddr}
use epistole.Config.Load.{load}
use epistole.Platform.{Platform}
use epistole.Store.Guard.{FilePath, FileSystem, guard_against_nested_keyspace}
use epistole.Store.Scans.{purge_expired_pending}
use epistole.Mailer.{Lettre, SmtpMailer, from_config}

-- What the two functions use of the operating system, of `fjall`, of `toml` and of `axum`.
-- An error is its display.
pub record Host (p : Platform) : Type 1 where
  pub SocketAddr : Type 0
  pub Listener : Type 0
  pub parse_socket_addr : Text → Result Text SocketAddr
  pub addr_to_string : SocketAddr → Text
  pub ip : SocketAddr → IpAddr
  pub env : Text → Option Text
  pub read_to_string : Text → Result Text Text
  pub toml_from_str : Text → Result Text Config
  pub path_of : Text → FilePath
  pub fs : FileSystem
  pub open_database : FilePath → Exec p.World Text (Unit {0})
  pub keyspace : Text → Exec p.World Text (Unit {0})
  pub bind : SocketAddr → Exec p.World Text Listener
  pub axum_serve : Listener → Exec p.World Text (Unit {0})

module _ (p : Platform) (l : Lettre) (host : Host p) where
  open p use {World, now_utc}

  -- The address of a socket address, if a text is one.
  abbrev pub socket_ip : Text → Option IpAddr
  socket_ip s = elim (host.parse_socket_addr s) [ err e ↦ none | ok addr ↦ some (host.ip addr) ]

  abbrev open_keyspace : Text → Exec World Error (Unit {0})
  open_keyspace name = call (host.keyspace name) (λ e. store (name ++ text " keyspace: " ++ e))

  -- `Store::open`
  unfoldable pub store_open : FilePath → Exec World Error (Unit {0})
  store_open path = do
    lift (guard_against_nested_keyspace host.fs path)
    call (host.open_database path)
        (λ e. store (text "open database at " ++ host.fs.display path ++ text ": " ++ e))
    open_keyspace (text "subscribers")
    open_keyspace (text "sends")
    open_keyspace (text "deliveries")
    open_keyspace (text "rate_limits")

  -- What `main` has when it begins to serve.
  pub record Started : Type 0 where
    pub config : Config
    pub mailer : SmtpMailer l
    pub listener : host.Listener

  -- The purge at startup, of rows that are 24 hours old.
  unfoldable pub purge_at_start : Exec World Error ℕ
  purge_at_start w = purge_expired_pending p (now_utc w).0 (24 * 3600) (now_utc w).1

  -- The mailer and the listener.
  unfoldable pub listen : Config → host.SocketAddr → Exec World Error Started
  listen cfg addr = do
    mailer ← lift (from_config l cfg.smtp)
    listener ← call (host.bind addr) (λ e. Error.bind (host.addr_to_string addr) e)
    pure (record { config = cfg; mailer = mailer; listener = listener })

  -- `main` up to the listener, for the argument `--config`.
  unfoldable pub start : Text → Exec World Error Started
  unfolding store_open purge_at_start listen
  start path = do
    cfg ← lift (load socket_ip host.env path (host.read_to_string path) host.toml_from_str)
    addr ← lift (
        map_err (host.parse_socket_addr cfg.bind)
          (λ e. config (text "invalid bind address " ++ cfg.bind ++ text ": " ++ e)))
    store_open (host.path_of cfg.data_dir)
    purge_at_start
    listen cfg addr

  unfoldable pub main : Text → Exec World Error (Unit {0})
  unfolding start
  main path = do started ← start path; call (host.axum_serve started.listener) (λ e. Error.serve e)
