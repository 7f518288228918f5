-- ===== src/Boot/Laws.antt =====
-- What holds when src/main.rs begins to serve.
use epistole.Prelude.{
  ℕ, ◌*◌, ◌≤◌, ◌≡◌, ◌≢◌, refl, subst, ap, ◌∙◌, false, if◌then◌else◌, Bool-cases, inl, inr, Option,
  none, Text, text, Result, ok, map_err, All,
}
use epistole.Prelude.Effects.{call, lift, >>=-eq-ok}
use epistole.Config.{Config}
use epistole.Config.Load.{load}
use epistole.Config.Load.Laws.{IsSound, load-IsSound}
use epistole.Platform.{Platform, PlatformLaws, subscribers}
use epistole.Records.{Subscriber}
use epistole.Store.Guard.{FilePath, guard_against_nested_keyspace, parent_parts}
use epistole.Store.Guard.Chains.{Leads}
use epistole.Store.Guard.Laws.{guard_against_nested_keyspace_iff}
use epistole.Store.Subscribers.{decode_row}
use epistole.Store.Subscribers.Laws.{subscriber_at}
use epistole.Store.Scans.Purge.{is_expired, purge_expired_pending-Purged}
use epistole.Mailer.{Lettre, from_config}
use epistole.Boot.{Host, Started, socket_ip, store_open, purge_at_start, listen, start}

module _ (p : Platform) (laws : PlatformLaws p) (l : Lettre) (host : Host p) where
  open p use {World, Time, now_utc}
  open laws use {rows}

  -- The clock when `main` has opened the store.
  abbrev pub opened_at : Config → World → Time
  opened_at cfg w = (now_utc (store_open p l host (host.path_of cfg.data_dir) w).1).0

  -- What a start in the world `w` leaves.
  pub record IsReady (cfg : Config) (w w' : World) : Type 0 where
    pub sound : IsSound (socket_ip p l host) cfg
    pub hops : ℕ
    pub canonical : FilePath
    pub few : hops ≤ 40
    pub leads : Leads host.fs hops (host.path_of cfg.data_dir) canonical
    pub outside : All (λ part. part ≢ text "partitions") (parent_parts canonical.parts)
    pub purged :
        (k : Text) → is_expired p (opened_at cfg w) (24 * 3600) (subscriber_at p laws w' k) ≡ false

  purge_at_start-clean :
      (w : World) {n : ℕ}
      → (purge_at_start p l host w).0 ≡ ok n
      → (k : Text)
      → is_expired p
          (now_utc w).0
          (24 * 3600)
          (subscriber_at p laws (purge_at_start p l host w).1 k)
        ≡ false
  unfolding purge_at_start
  purge_at_start-clean w h =
      let now = (now_utc w).0 in
      let purged = purge_expired_pending-Purged p laws now (24 * 3600) (now_utc w).1 h in
      λ k. rw (purged.row k) (gone now (subscriber_at p laws (now_utc w).1 k))
    where
      gone :
          (now : Time) (o : Result Text (Option (Subscriber Time)))
          → is_expired p now (24 * 3600) (if is_expired p now (24 * 3600) o then ok none else o)
            ≡ false
      gone now o = elim (Bool-cases (is_expired p now (24 * 3600) o)) [
        | inl old ↦ rw old refl
        | inr young ↦ rw young young
      ]

  store_open-guarded :
      (path : FilePath) (w : World)
      → (store_open p l host path w).0 ≡ ok tt
      → guard_against_nested_keyspace host.fs path ≡ ok tt
  unfolding store_open
  store_open-guarded path w h =
      let (_, guarded, _, _) =
        >>=-eq-ok (lift (guard_against_nested_keyspace host.fs path)) _ w h in
      guarded

  module _
      (rows-bind : (addr : host.SocketAddr) (w : World) → rows (host.bind addr w).1 ≡ rows w) where
    listen-started :
        (cfg : Config) (addr : host.SocketAddr) (w : World) {started : Started p l host}
        → (listen p l host cfg addr w).0 ≡ ok started
        → (cfg ≡ started.config) × (rows (listen p l host cfg addr w).1 ≡ rows w)
    unfolding listen
    listen-started cfg addr w {started} h =
        let (mailer, _, same, h1) = >>=-eq-ok (lift (from_config l cfg.smtp)) _ w h in
        let (listener, _, same1, h2) = >>=-eq-ok (call (host.bind addr) _) _ w h1 in
        let begun : Started p l host = record {
          config = cfg;
          mailer = mailer;
          listener = listener;
        } in
        let end : begun ≡ started = cc in
        rw (same, same1) (ap (λ s. s.config) end, rows-bind addr w)

    -- When `main` begins to serve, the configuration meets its policies, at most 40 broken links
    -- lead from the data directory to a canonical path outside every `partitions` directory, and no
    -- row is left that was pending and 24 hours old by the clock at the time the store was opened.
    -- Binding a socket changes no row.
    pub start-IsReady :
        (path : Text) (w : World) (started : Started p l host)
        → (start p l host path w).0 ≡ ok started
        → IsReady started.config w (start p l host path w).1
    unfolding start
    start-IsReady path w started h =
        let (cfg, loaded, same, h1) =
          >>=-eq-ok
            (lift (
              load (socket_ip p l host) host.env path (host.read_to_string path)
                host.toml_from_str))
            _ w h in
        let (addr, _, same1, h2) =
          >>=-eq-ok (lift (map_err (host.parse_socket_addr cfg.bind) _)) _ w h1 in
        let (_, opened, same2, h3) =
          >>=-eq-ok (store_open p l host (host.path_of cfg.data_dir)) _ w h2 in
        let w1 = (store_open p l host (host.path_of cfg.data_dir) w).1 in
        let (n, purged, same3, h4) = >>=-eq-ok (purge_at_start p l host) _ w1 h3 in
        let w2 = (purge_at_start p l host w1).1 in
        let (config_lem, rows_lem) = listen-started cfg addr w2 h4 in
        let clean = purge_at_start-clean w1 purged in
        let (hops, canonical, few, leads, outside) =
          (guard_against_nested_keyspace_iff host.fs (host.path_of cfg.data_dir)).0
            (store_open-guarded (host.path_of cfg.data_dir) w opened) in
        rw (same, same1, same2, same3)
          (subst (λ c. IsReady c w (listen p l host cfg addr w2).1) config_lem
            (record {
              sound =
                  load-IsSound (socket_ip p l host) host.env path (host.read_to_string path)
                    host.toml_from_str cfg loaded;
              hops = hops;
              canonical = canonical;
              few = few;
              leads = leads;
              outside = outside;
              purged = λ k.
                  ap
                    (λ r.
                      is_expired p (opened_at cfg w) (24 * 3600) (decode_row p (r subscribers k)))
                    rows_lem
                  ∙ clean k;
            }))
