-- ===== src/Tests/Storage.antt =====
-- Runs of the database and of the response cache.
use inter_gate.Base.{
  ℕ, ne_of_eq, ◌<◌, ◌+◌, ◌*◌, ◌≤◌, String, ◌≡◌, refl, inl, inr, ◌↔◌, true, none, some, List, [],
  ◌∷◌, ◌++◌, arith, length, Elem, All, ap, string_eq,
}
use inter_gate.Base.Sorting.{sort}
use inter_gate.Base.Dict
use inter_gate.Base.Dict.{Dict}
use inter_gate.Keys.ApiKey.{KeyRow}
use inter_gate.Store.{
  StatKey, LogRow, write_flush, delete_key, get_key, pending_logs, pending_stats, pending_keys,
  prune_logs, day_ms,
}
use inter_gate.Store.Queue.{
  AllNamed, AddUp, rows_from, settled, counts_at, queued_at, last_row, write_flush-named,
  write_flush-unnamed, delete_key-write_flush,
}
use inter_gate.Store.Retention.{HasIds, within, prune_logs-within, prune_logs-keeps_newest}
use inter_gate.Cache
use inter_gate.Cache.{CacheEntry, ResponseCache, storable, init, evict}
use inter_gate.Cache.Laws.{IsValid}
use inter_gate.Cache.Recency.{uses, uses_since, put-evicts_oldest}
use inter_gate.Cache.History.{Call, run, accepted, run-returns_accepted}
use inter_gate.Tests.Data.{queued_db, row, logged_db, log_at}

named : AllNamed (pending_logs (queued_db (some "gpt-4o")).batch_pending)
named = ((λ e. cc), tt)

unnamed : AllNamed (pending_logs (queued_db none).batch_pending) → ⊥
unnamed h = h.0 refl

write_flush-named_example :
    let db = queued_db (some "gpt-4o") in
    let after = write_flush db in
    let items = db.batch_pending in
    (after.batch_pending ≡ [])
    × (after.request_logs ≡ db.request_logs ++ rows_from db.next_log_id (pending_logs items))
    × ((k : StatKey)
        → AddUp
            (counts_at k after.stats_daily)
            (counts_at k db.stats_daily)
            (queued_at k (pending_stats items)))
    × ((j : String)
        → Dict.lookup j after.api_keys ≡ settled j (Dict.lookup j db.api_keys) (pending_keys items))
write_flush-named_example = write_flush-named (queued_db (some "gpt-4o")) named

write_flush-unnamed_example :
    let db = queued_db none in
    let after = write_flush db in
    (after.batch_pending ≡ [])
    × (after.stats_daily ≡ db.stats_daily)
    × (after.api_keys ≡ db.api_keys)
write_flush-unnamed_example = write_flush-unnamed (queued_db none) unnamed

abbrev one_row : Dict String KeyRow
one_row = ("a", row "a") ∷ []

one_key-IsDict : Dict.IsDict (queued_db (some "gpt-4o")).api_keys
unfolding Dict.lookup
one_key-IsDict = (refl, tt)

delete_key-write_flush_example :
    (get_key (write_flush (delete_key (queued_db (some "gpt-4o")) "a")) "a" ≡ none)
    ↔ (last_row "a" (pending_keys (queued_db (some "gpt-4o")).batch_pending) ≡ none)
delete_key-write_flush_example =
    delete_key-write_flush (queued_db (some "gpt-4o")) "a" named one_key-IsDict

logged-HasIds : HasIds logged_db
logged-HasIds = record {
  distinct = (((λ e. omega (arith, e)), tt), (tt, tt));
  below = λ r m. elim m [
    | inl e ↦ rw e (omega arith)
    | inr n ↦ elim n [ inl e ↦ rw e (omega arith) | inr o ↦ absurd (o tt) ]
  ];
}

prune_logs-within_example :
    let (after, n) = prune_logs logged_db 1000 7 1 in
    (length after.request_logs ≤ 1)
    × All (λ r. Elem r logged_db.request_logs × (1000 ≤ r.ts + 7 * day_ms)) after.request_logs
    × (n + length (within 1000 7 logged_db.request_logs) ≡ length logged_db.request_logs)
prune_logs-within_example = prune_logs-within logged_db 1000 7 1 logged-HasIds

newest_kept : Elem (log_at 2 200) (prune_logs logged_db 1000 7 1).0.request_logs
unfolding prune_logs sort
newest_kept = inl refl

oldest_gone : Elem (log_at 1 100) (prune_logs logged_db 1000 7 1).0.request_logs → ⊥
unfolding prune_logs sort
oldest_gone (inl e) = omega (arith, ap (λ (r : LogRow). r.id) e)
oldest_gone (inr h) = h tt

oldest_recent : Elem (log_at 1 100) (within 1000 7 logged_db.request_logs)
oldest_recent = inl refl

prune_logs-keeps_newest_example : 100 ≤ 200
prune_logs-keeps_newest_example =
    prune_logs-keeps_newest logged_db 1000 7 1 (log_at 2 200) (log_at 1 100) logged-HasIds
      newest_kept oldest_recent oldest_gone

abbrev small_cache : ResponseCache
small_cache = record {
  enabled = true;
  ttl = 300;
  max_entries = 1;
  max_body_bytes = 100;
  store = [];
  hits = 0;
  misses = 0;
}

small-IsValid : IsValid small_cache
small-IsValid = record { distinct = tt; bounded = omega arith }

-- Two entries, of which the first is read again, and room for two.
abbrev filled : List Call
filled = Call.put 10 "a" 200 [] (1 ∷ []) ∷ Call.put 20 "b" 200 [] (2 ∷ []) ∷ Call.get 30 "a" ∷ []

abbrev entry_at : ℕ → ℕ → CacheEntry
entry_at now byte = record { status = 200; headers = []; body = byte ∷ []; created = now }

abbrev two_entries : ResponseCache
two_entries = init true 300 2 100

held_b : Dict.lookup "b" (run filled two_entries).store ≡ some (entry_at 20 2)
unfolding run Cache.get Cache.put init evict Dict.lookup Dict.remove
held_b = refl

gone_b : Dict.lookup "b" (Cache.put (run filled two_entries) 40 "k" 200 [] (1 ∷ [])).store ≡ none
unfolding run Cache.get Cache.put init evict Dict.lookup Dict.remove
gone_b = refl

left_a :
    Dict.lookup "a" (Cache.put (run filled two_entries) 40 "k" 200 [] (1 ∷ [])).store
    ≡ some (entry_at 10 1)
unfolding run Cache.get Cache.put init evict Dict.lookup Dict.remove
left_a = refl

put-evicts_oldest_example :
    uses_since "a" (uses filled two_entries []) < uses_since "b" (uses filled two_entries [])
put-evicts_oldest_example =
    put-evicts_oldest true 300 2 100 filled 40 "k" 200 [] (1 ∷ []) "b" "a" (entry_at 20 2)
      (entry_at 10 1) (ne_of_eq "k" "b" refl) (ne_of_eq "k" "a" refl) held_b gone_b left_a

abbrev calls : List Call
calls = Call.put 10 "k" 200 [] (1 ∷ []) ∷ Call.get 20 "k" ∷ []

hit : (Cache.get (run calls (init true 300 5 100)) 30 "k").1 ≡ some (200, [], 1 ∷ [])
unfolding run Cache.get Cache.put init evict Dict.lookup Dict.remove
hit = refl

run-returns_accepted_example :
    IsValid (run calls (init true 300 5 100))
    × ((e : CacheEntry) × (Dict.lookup "k" (accepted true 100 calls []) ≡ some e)
        × (e.status ≡ 200)
        × (e.headers ≡ [])
        × (e.body ≡ 1 ∷ [])
        × (30 ≤ e.created + 300))
run-returns_accepted_example = run-returns_accepted true 300 5 100 calls 30 "k" 200 [] (1 ∷ []) hit
