-- ===== src/Tests/Scanning.antt =====
-- The theorems about scans of the store and about whole campaigns.
use epistole.Prelude.{ℕ, ◌≡◌, refl, ok, List, text, text_eq, false, map, [], ◌∷◌, Text}
use epistole.Prelude.Keys.{text_lt}
use epistole.Records.{Send}
use epistole.Platform.{Space, subscribers, sends}
use epistole.Store.{persist_acknowledged}
use epistole.Store.Subscribers.Laws.{subscriber_at}
use epistole.Store.Scans.{
  active_rows, active_subscribers, expired_keys, remove_all, purge_expired_pending, collect,
  recent_sends, decode_send,
}
use epistole.Store.Scans.Active.{IsActiveList, active_subscribers-IsActiveList}
use epistole.Store.Scans.Purge.{Purged, purge_expired_pending-Purged}
use epistole.Store.Scans.Recent.{IsNewest}
use epistole.Handlers.Archive
use epistole.Handlers.Archive.{Archived, archive_index}
use epistole.Handlers.Archive.Laws.{get-IsNewest}
use epistole.Examples.Tables.{Table, sort, put}
use epistole.Examples.Memory.{Memory, memory, memory_laws, empty}
use epistole.Examples.Links.{config}
use epistole.Tests.Sending.{ann, issue}

-- An active subscriber and a pending one, and two sends.
abbrev tables : Space → Table
tables subscribers =
    (text "bob@x.org", 0 ∷ 5 ∷ 0 ∷ 0 ∷ 0 ∷ text "bob@x.org")
    ∷ (text "ann@x.org", 1 ∷ 5 ∷ 0 ∷ 0 ∷ 0 ∷ text "ann@x.org")
    ∷ []
tables sends = (9 ∷ [], 9 ∷ 7 ∷ 3 ∷ text "May<p>May</p>") ∷ (8 ∷ [], 8 ∷ 6 ∷ 3 ∷ text "Apr<p>") ∷ []
tables _ = []

abbrev crowd : Memory
crowd = record empty { tables = tables }

active_lem : (active_subscribers memory crowd).0 ≡ ok (ann ∷ [])
unfolding active_subscribers active_rows sort put text text_eq text_lt
active_lem = refl

active_subscribers-IsActiveList_example :
    (keys : List Text) × IsActiveList memory
      (subscriber_at memory memory_laws crowd)
      keys
      (ann ∷ [])
active_subscribers-IsActiveList_example =
    active_subscribers-IsActiveList memory memory_laws crowd active_lem

purged_lem : (purge_expired_pending memory 8 2 crowd).0 ≡ ok 1
unfolding purge_expired_pending expired_keys remove_all persist_acknowledged sort put text text_eq
    text_lt
purged_lem = refl

purge_expired_pending-Purged_example :
    Purged memory memory_laws 8 2 1 crowd (purge_expired_pending memory 8 2 crowd).1
purge_expired_pending-Purged_example =
    purge_expired_pending-Purged memory memory_laws 8 2 crowd purged_lem

abbrev april : Send ℕ ℕ
april = record {
  id = record { ulid = 8 };
  subject = text "Apr";
  body_html = text "<p>";
  sent_at = 6;
}

abbrev index : Archived (Send ℕ ℕ)
index = record {
  cache_control = text "public, max-age=300";
  page = archive_index (text "News") (issue ∷ april ∷ []) false;
}

abbrev filed : Table
filed = (8 ∷ [], 8 ∷ 6 ∷ 3 ∷ text "Apr<p>") ∷ (9 ∷ [], 9 ∷ 7 ∷ 3 ∷ text "May<p>May</p>") ∷ []

filed_lem : (memory.iter sends crowd).0 ≡ map ok filed
unfolding sort put text_eq text_lt
filed_lem = refl

index_lem : (Archive.get memory config crowd).0 ≡ ok index
unfolding Archive.get recent_sends collect decode_send sort put text text_eq text_lt
index_lem = refl

get-IsNewest_example :
    (keys : List Text) × (shown : List (Send ℕ ℕ)) × IsNewest memory
      (memory_laws.rows crowd sends)
      100
      keys
      shown
    × (index.page ≡ archive_index (text "News") shown false)
get-IsNewest_example = get-IsNewest memory memory_laws config crowd filed index filed_lem index_lem
