-- ===== src/Tests/Serving.antt =====
-- The theorems about the mailer, the router, the start of the server and the pages.
use epistole.Prelude.{
  arith, ap, length, ℕ, some, ◌≢◌, ◌∙◌, inl, inr, ◌≡◌, refl, ◌⊎◌, ok, err, none, false, [], ◌∷◌,
  Text, text, text_eq, to_ascii_lowercase, lower_byte,
}
use epistole.Error.{unauthorized}
use epistole.Config.Proxies.{v4}
use epistole.Config.Load.{
  load, resolve_secrets, validate_secrets, validate_caps, validate_bind_policy, is_loopback,
}
use epistole.Config.Secrets.{
  resolve_secret_env, validate_secret_strength, first_blocked, blocked_secret_substrs, contains,
  starts_with,
}
use epistole.Mailer.{from_config}
use epistole.Mailer.Laws.{Connection}
use epistole.Store.Guard.{
  is_name, file_name, push_all, make_absolute, walk_up, canonicalize_bounded,
  canonicalize_with_nonexistent, in_partitions, guard_against_nested_keyspace,
}
use epistole.Store.Scans.{expired_keys, remove_all, purge_expired_pending}
use epistole.Handlers.Bearer.Laws.{Bears}
use epistole.Handlers.Pages.{confirm_interstitial}
use epistole.Handlers.Archive.{archive_index}
use epistole.Router.{router, operator_routes, post, send_post, Request, serve, plain}
use epistole.Router.Laws.{IsRouted, unlimited_requests-guarded}
use epistole.Boot.{Host, Started, store_open, purge_at_start, listen, start}
use epistole.Boot.Laws.{IsReady, start-IsReady}
use epistole.Templates.Pages.{render}
use epistole.Templates.Archive.{render_archive}
use epistole.Templates.Safety.{skeleton, skeleton-render, skeleton-render_archive}
use epistole.Examples.Letters.{letter_crypto, letter_laws}
use epistole.Examples.Tables.{sort, put}
use epistole.Examples.Memory.{memory, memory_laws, empty}
use epistole.Examples.Relay.{relay}
use epistole.Examples.Links.{config, confirm_link}
use epistole.Tests.Boundaries.{strong}
use epistole.Tests.Paths.{disk, at_root}
use epistole.Tests.Sending.{issue}

abbrev dialed : Connection
dialed = record {
  implicit_tls = false;
  host = strong.smtp.host;
  port = 587;
  username = strong.smtp.username;
  password = strong.smtp.password;
}

mailer_lem : from_config relay strong.smtp ≡ ok (record { transport = dialed })
unfolding from_config
mailer_lem = refl

abbrev request : Request memory letter_crypto config
request = record {
  email = text "ann@x.org";
  token = confirm_link;
  list_unsubscribe = text "One-Click";
  send_id = issue.id;
  authorization = none;
  body = [];
}

send-IsRouted :
    IsRouted operator_routes
      (record { template = text "/send"; method = post; endpoint = send_post })
unfolding router operator_routes
send-IsRouted = record { group = inr (inr (inl refl)); member = inl refl }

not_limited : operator_routes.rate_limited ≡ false
unfolding operator_routes
not_limited = refl

-- A visitor who guesses a token.
abbrev guess : Request memory letter_crypto config
guess = record request { authorization = some (text "Bearer a guess") }

-- The only token that the header can hold is the one that she gave.
guess-Bears :
    (secret : Text)
    → text "a guess" ≢ secret
    → ¬ Bears memory letter_crypto guess.authorization secret
unfolding text
guess-Bears secret other b =
    let given : text "a guess" ≡ b.token = let a = b.given in let s = b.shown in cc in
    other (given ∙ b.same)

guess-other : text "a guess" ≢ config.send_auth_token
unfolding text
guess-other e = let other : ◌≡◌ {A = ℕ} 7 8 = ap length e in omega arith

guess-other_too : text "a guess" ≢ config.webhook_auth_token
unfolding text
guess-other_too e = let other : ◌≡◌ {A = ℕ} 7 5 = ap length e in omega arith

unlimited_requests-guarded_example :
    (serve memory letter_crypto config send_post guess empty ≡ (ok (plain (text "ok")), empty))
    ⊎ (serve memory letter_crypto config send_post guess empty ≡ (err unauthorized, empty))
unlimited_requests-guarded_example =
    unlimited_requests-guarded memory memory_laws letter_crypto config letter_laws operator_routes
      (record { template = text "/send"; method = post; endpoint = send_post }) guess empty
      send-IsRouted not_limited (guess-Bears config.send_auth_token guess-other)
      (guess-Bears config.webhook_auth_token guess-other_too)

abbrev host : Host memory
host = record {
  SocketAddr = Text;
  Listener = Text;
  parse_socket_addr = λ s. ok s;
  addr_to_string = λ s. s;
  ip = λ s. v4 2130706433;
  env = λ name. none;
  read_to_string = λ path. ok (text "...");
  toml_from_str = λ s. ok strong;
  path_of = λ s. at_root (text "store" ∷ text "srv" ∷ []);
  fs = disk;
  open_database = λ path w. (ok tt, w);
  keyspace = λ name w. (ok tt, w);
  bind = λ addr w. (ok addr, w);
  axum_serve = λ listener w. (ok tt, w);
}

abbrev started : Started memory relay host
started = record { config = strong; mailer = record { transport = dialed }; listener = strong.bind }

started_lem : (start memory relay host (text "epistole.toml") empty).0 ≡ ok started
unfolding start listen store_open purge_at_start purge_expired_pending expired_keys remove_all sort
    put guard_against_nested_keyspace canonicalize_with_nonexistent canonicalize_bounded
    make_absolute walk_up file_name is_name push_all in_partitions from_config load resolve_secrets
    resolve_secret_env validate_secrets validate_caps validate_bind_policy validate_secret_strength
    first_blocked blocked_secret_substrs contains starts_with is_loopback text text_eq
    to_ascii_lowercase lower_byte
started_lem = refl

start-IsReady_example :
    IsReady memory memory_laws relay host strong empty
      (start memory relay host (text "epistole.toml") empty).1
unfolding memory_laws
start-IsReady_example =
    start-IsReady memory memory_laws relay host (λ addr w. refl) (text "epistole.toml") empty
      started started_lem

skeleton-render_example :
    skeleton (render memory (confirm_interstitial (text "<script>") (text "t")))
    ≡ skeleton (render memory (confirm_interstitial [] []))
skeleton-render_example =
    skeleton-render memory memory_laws (confirm_interstitial (text "<script>") (text "t"))

skeleton-render_archive_example :
    skeleton (render_archive memory (archive_index (text "<News>") (issue ∷ []) false))
    ≡ skeleton (render_archive memory (archive_index [] (record issue { subject = [] } ∷ []) false))
skeleton-render_archive_example =
    skeleton-render_archive memory memory_laws (archive_index (text "<News>") (issue ∷ []) false)
