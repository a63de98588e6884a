-- ===== src/Store/Queue.antt =====
-- What a flush of the background writer does to the tables of `db/database.py`.
use inter_gate.Base.{
  ℕ, ◌+◌, String, ◌≡◌, refl, ◌≢◌, ◌↔◌, true, false, inl, inr, Option, none, some, List, [], ◌∷◌,
  ◌++◌, arith, ◌==◌, string_eq, triple_eq, if◌then◌else◌, Option-cases, sym, ap, ◌∙◌,
}
use mathlib.Core.List.{append-nil}
use inter_gate.Base.Dict
use inter_gate.Base.Dict.{Dict}
use inter_gate.Keys.ApiKey.{KeyRow}
use inter_gate.Store.{
  Database, LogRow, log_row, LogEntry, Counts, StatKey, add_counts, upsert_row, upsert_stat,
  insert_logs, pending_logs, pending_stats, pending_keys, write_stats, write_keys, write_flush,
  delete_key, get_key, merge_key,
}

-- Every log has a model, so no insert of the batch is refused.
abbrev pub AllNamed : List LogEntry → Type 0
AllNamed [] = Unit
AllNamed (d ∷ ds) = (d.model ≢ none) × AllNamed ds

no_counts : Counts
no_counts = record {
  requests = 0;
  errors = 0;
  prompt_tokens = 0;
  completion_tokens = 0;
  cost_usd = 0;
}

-- The counters that a table shows at a primary key; no row counts nothing.
unfoldable pub counts_at : StatKey → Dict StatKey Counts → Counts
unfolding no_counts
counts_at k table = elim (Dict.lookup k table) [ none ↦ no_counts | some c ↦ c ]

-- The sum of the queued counters for a primary key.
unfoldable pub queued_at : StatKey → List (StatKey × Counts) → Counts
unfolding no_counts
queued_at k [] = no_counts
queued_at k ((j, c) ∷ rest) = if j == k then add_counts c (queued_at k rest) else queued_at k rest

stat_key_eq : (j k : StatKey) → ((j == k) ≡ true) ↔ (j ≡ k)
stat_key_eq = triple_eq.equal_iff

upsert_stat-counts_at :
    (k j : StatKey) (c : Counts) (table : Dict StatKey Counts)
    → counts_at k (upsert_stat j c table)
      ≡ (if j == k then add_counts (counts_at k table) c else counts_at k table)
unfolding upsert_stat counts_at
upsert_stat-counts_at k j c table = elim (Option-cases (Dict.lookup j table)) [
  | inl p ↦ ground (arith, Dict.lookup-insert j k c table, stat_key_eq j k)
  | inr (old, p) ↦ ground (arith, Dict.lookup-insert j k (add_counts old c) table, stat_key_eq j k)
]

write_stats-counts_at :
    (k : StatKey) (items : List (StatKey × Counts)) (table : Dict StatKey Counts)
    → counts_at k (write_stats items table) ≡ add_counts (counts_at k table) (queued_at k items)
unfolding write_stats queued_at
write_stats-counts_at k [] table = ground arith
write_stats-counts_at k ((j, c) ∷ rest) table =
    ground (
      arith,
      write_stats-counts_at k rest (upsert_stat j c table),
      upsert_stat-counts_at k j c table,
    )

insert_logs-tables :
    (ds : List LogEntry) (db : Database)
    → let after = (insert_logs ds db).0 in
      (after.stats_daily ≡ db.stats_daily)
      × (after.api_keys ≡ db.api_keys)
      × (after.batch_pending ≡ db.batch_pending)
unfolding insert_logs
insert_logs-tables [] db = (refl, refl, refl)
insert_logs-tables (d ∷ ds) db = elim (Option-cases d.model) [
  | inl p ↦ rw p (refl, refl, refl)
  | inr (m, p) ↦ rw p (insert_logs-tables ds _)
]

-- The rows of the logs that name a model, numbered from `id` on.
abbrev pub rows_from : ℕ → List LogEntry → List LogRow
rows_from id [] = []
rows_from id (d ∷ ds) = elim d.model [
  | none ↦ rows_from id ds
  | some m ↦ log_row id d m ∷ rows_from (id + 1) ds
]

append_one :
    (rows : List LogRow) (r : LogRow) (rest : List LogRow)
    → (rows ++ r ∷ []) ++ rest ≡ rows ++ (r ∷ rest)
append_one [] r rest = refl
append_one (x ∷ rows) r rest = ap (◌∷◌ x) (append_one rows r rest)

insert_logs-named :
    (ds : List LogEntry) (db : Database)
    → AllNamed ds
    → ((insert_logs ds db).1 ≡ true)
      × ((insert_logs ds db).0.request_logs ≡ db.request_logs ++ rows_from db.next_log_id ds)
unfolding insert_logs
insert_logs-named [] db h = (refl, sym (append-nil db.request_logs))
insert_logs-named (d ∷ ds) db h = elim (Option-cases d.model) [
  | inl p ↦ absurd (h.0 p)
  | inr (m, p) ↦ rw p (
      let r = insert_logs-named ds _ h.1 in
      let row = log_row db.next_log_id d m in
      (r.0, r.1 ∙ append_one db.request_logs row (rows_from (db.next_log_id + 1) ds)))
]

insert_logs-unnamed :
    (ds : List LogEntry) (db : Database) → ¬ AllNamed ds → (insert_logs ds db).1 ≡ false
unfolding insert_logs
insert_logs-unnamed [] db h = absurd (h tt)
insert_logs-unnamed (d ∷ ds) db h = elim (Option-cases d.model) [
  | inl p ↦ rw p refl
  | inr (m, p) ↦ rw p (insert_logs-unnamed ds _ (λ k. h (λ e. cc, k)))
]

-- The row queued last for an id, and the time of creation of the row queued first for it.
abbrev pub last_row : String → List KeyRow → Option KeyRow
last_row j [] = none
last_row j (d ∷ rest) = elim (last_row j rest) [
  | none ↦ if d.id == j then some d else none
  | some r ↦ some r
]

abbrev pub first_created : String → List KeyRow → ℕ → ℕ
first_created j [] c = c
first_created j (d ∷ rest) c = if d.id == j then d.created_at else first_created j rest c

-- The row of an id after the queued rows are written over an old one, or over none.
abbrev pub settled : String → Option KeyRow → List KeyRow → Option KeyRow
settled j old rows = elim (last_row j rows) [
  | none ↦ old
  | some d ↦ elim old [
    | none ↦ some (record d { created_at = first_created j rows d.created_at })
    | some o ↦ some (record d { created_at = o.created_at })
  ]
]

lookup-upsert_row :
    (j : String) (d : KeyRow) (table : Dict String KeyRow)
    → Dict.lookup j (upsert_row d table)
      ≡ (if d.id == j then some (merge_key (Dict.lookup j table) d) else Dict.lookup j table)
unfolding upsert_row
lookup-upsert_row j d table = ground (
  arith,
  Dict.lookup-insert d.id j (merge_key (Dict.lookup d.id table) d) table,
  string_eq.equal_iff d.id j,
)

-- Writing the queued keys leaves at each id the row that was queued last for it, with the time of
-- creation of the row that was there before, or of the first one queued if there was none; an id
-- with nothing queued keeps its row.
pub write_keys-settled :
    (j : String) (rows : List KeyRow) (table : Dict String KeyRow)
    → Dict.lookup j (write_keys rows table) ≡ settled j (Dict.lookup j table) rows
unfolding write_keys merge_key
write_keys-settled j [] table = refl
write_keys-settled j (d ∷ rest) table =
    ground (arith, write_keys-settled j rest (upsert_row d table), lookup-upsert_row j d table)

-- The requests, errors and tokens of one are those of two others together.
abbrev pub AddUp : Counts → Counts → Counts → Type 0
AddUp a b c =
    (a.requests ≡ b.requests + c.requests)
    × (a.errors ≡ b.errors + c.errors)
    × (a.prompt_tokens ≡ b.prompt_tokens + c.prompt_tokens)
    × (a.completion_tokens ≡ b.completion_tokens + c.completion_tokens)

write_stats-AddUp :
    (k : StatKey) (items : List (StatKey × Counts)) (table : Dict StatKey Counts)
    → AddUp (counts_at k (write_stats items table)) (counts_at k table) (queued_at k items)
write_stats-AddUp k items table =
    let e = write_stats-counts_at k items table in
    (
      ap (λ (x : Counts). x.requests) e,
      ap (λ (x : Counts). x.errors) e,
      ap (λ (x : Counts). x.prompt_tokens) e,
      ap (λ (x : Counts). x.completion_tokens) e,
    )

-- If every queued log names a model, a flush empties the queue and appends one row for every
-- queued log, in their order, with that log's columns and numbers from the next id on. To the
-- requests, errors and tokens of each date, provider and key it adds exactly the sum of what was
-- queued for them. At each id it leaves the key row that was queued last for it, with the time of
-- creation of the row that was there before, or of the first one queued if there was none; an id
-- with no key row queued keeps its row.
pub write_flush-named :
    (db : Database)
    → AllNamed (pending_logs db.batch_pending)
    → let after = write_flush db in
      let items = db.batch_pending in
      (after.batch_pending ≡ [])
      × (after.request_logs ≡ db.request_logs ++ rows_from db.next_log_id (pending_logs items))
      × ((k : StatKey)
          → AddUp
              (counts_at k after.stats_daily)
              (counts_at k db.stats_daily)
              (queued_at k (pending_stats items)))
      × ((j : String)
          → Dict.lookup j after.api_keys
            ≡ settled j (Dict.lookup j db.api_keys) (pending_keys items))
unfolding write_flush
write_flush-named db h =
    let start : Database = record db { batch_pending = [] } in
    let items = db.batch_pending in
    let (same_stats, same_keys, same_queue) = insert_logs-tables (pending_logs items) start in
    let (complete, grown) = insert_logs-named (pending_logs items) start h in
    rw complete (
      same_queue,
      grown,
      λ k. rw same_stats (write_stats-AddUp k (pending_stats items) db.stats_daily),
      λ j. rw same_keys (write_keys-settled j (pending_keys items) db.api_keys),
    )

-- If one queued log names no model, as the log of a request without a model does, a flush drops
-- every queued statistic and every queued key: the queue is empty afterwards and both tables are
-- as they were.
pub write_flush-unnamed :
    (db : Database)
    → ¬ AllNamed (pending_logs db.batch_pending)
    → let after = write_flush db in
      (after.batch_pending ≡ [])
      × (after.stats_daily ≡ db.stats_daily)
      × (after.api_keys ≡ db.api_keys)
unfolding write_flush
write_flush-unnamed db h =
    let start : Database = record db { batch_pending = [] } in
    let items = db.batch_pending in
    let (same_stats, same_keys, same_queue) = insert_logs-tables (pending_logs items) start in
    rw (insert_logs-unnamed (pending_logs items) start h) (same_queue, same_stats, same_keys)

-- Where every queued log names a model and no id stands twice in the table, a key that is deleted
-- is gone after the next flush exactly when no write-back of it was queued before the deletion.
pub delete_key-write_flush :
    (db : Database) (key_id : String)
    → AllNamed (pending_logs db.batch_pending)
    → Dict.IsDict db.api_keys
    → (get_key (write_flush (delete_key db key_id)) key_id ≡ none)
      ↔ (last_row key_id (pending_keys db.batch_pending) ≡ none)
unfolding delete_key get_key
delete_key-write_flush db key_id h d =
    let table = Dict.remove key_id db.api_keys in
    ground (
      arith,
      (write_flush-named (record db { api_keys = table }) h).3 key_id,
      Dict.lookup-remove_self key_id db.api_keys d,
    )
