-- ===== src/Store/Retention.antt =====
-- `prune_logs`: what stays of the request logs, and how many.
use inter_gate.Base.{
  ℕ, suc, ◌+◌, ◌*◌, ◌≤◌, ◌<◌, ◌≡◌, refl, ap, true, inl, inr, List, [], ◌∷◌, map, arith, nat_eq, leb,
  leb→le, Elem, All, length, take, drop, contains, filter, filter-Elem, All, Elem-All, Elem-filter,
  length-filter-le, length-take, Elem-take_or_drop, take-Elem, DistinctBy, filter-DistinctBy,
  length-select-le, map-Elem, Elem-map, distinct-eq, contains-Elem, Elem-contains,
}
use inter_gate.Base.Sorting.{Total, sort, sort-IsSorted, Elem-sort, sort-Elem, take-le-drop}
use inter_gate.Store.{Database, LogRow, prune_logs, newer_leb, newest_ids, day_ms}

pub newer_leb-Total : Total newer_leb
newer_leb-Total = record { total = λ a b h. ground arith; trans = λ a b c h k. ground arith }

-- The rows that the first statement leaves.
abbrev pub within : ℕ → ℕ → List LogRow → List LogRow
within now_ms retention_days = filter (λ (r : LogRow). leb now_ms (r.ts + retention_days * day_ms))

abbrev log_id : LogRow → ℕ
log_id r = r.id

-- No two logs have one id, and the next id is above them all.
pub record HasIds (db : Database) : Type 0 where
  pub distinct : DistinctBy (λ (r : LogRow). r.id) db.request_logs
  pub below : (r : LogRow) → Elem r db.request_logs → r.id < db.next_log_id

length-map-id : (rows : List LogRow) → length (map log_id rows) ≡ length rows
length-map-id [] = refl
length-map-id (r ∷ rows) = ap suc (length-map-id rows)

length-newest_ids : (n : ℕ) (rows : List LogRow) → length (newest_ids n rows) ≤ n
length-newest_ids n rows =
    omega (arith, length-map-id (take n (sort newer_leb rows)), length-take n (sort newer_leb rows))

-- What the ids of the newest rows select are those rows.
selected-take :
    (n : ℕ) (r : LogRow) (rows : List LogRow)
    → DistinctBy log_id rows
    → Elem r (filter (λ s. contains (newest_ids n rows) s.id) rows)
    → Elem r (take n (sort newer_leb rows))
selected-take n r rows d m =
    let sorted = sort newer_leb rows in
    let (there, chosen) = filter-Elem _ r rows m in
    let (s, top, same) =
      map-Elem log_id r.id (take n sorted) (contains-Elem r.id (newest_ids n rows) chosen) in
    let back = sort-Elem newer_leb s rows (take-Elem n s sorted top) in
    rw (distinct-eq log_id r s rows d there back same) top

-- A row that is not selected stands behind the cut.
unselected-drop :
    (n : ℕ) (s : LogRow) (rows : List LogRow)
    → Elem s rows
    → ¬ Elem s (filter (λ r. contains (newest_ids n rows) r.id) rows)
    → Elem s (drop n (sort newer_leb rows))
unselected-drop n s rows there gone =
    let sorted = sort newer_leb rows in
    elim (Elem-take_or_drop n s sorted (Elem-sort newer_leb s rows there)) [
      | inl top ↦ absurd (
          gone (
            Elem-filter _ s rows there
              (Elem-contains s.id (newest_ids n rows) (Elem-map log_id s (take n sorted) top))))
      | inr rest ↦ rest
    ]

newer_leb→le : (r s : LogRow) → newer_leb r s ≡ true → s.ts ≤ r.ts
newer_leb→le r s h = ground arith

-- What a pruning does, in one statement.
prune_logs_lem :
    (db : Database) (now_ms retention_days max_entries : ℕ)
    → HasIds db
    → let (after, n) = prune_logs db now_ms retention_days max_entries in
      let kept = after.request_logs in
      let recent = within now_ms retention_days db.request_logs in
      (length kept ≤ max_entries)
      × ((r : LogRow)
          → Elem r kept
          → Elem r db.request_logs × (now_ms ≤ r.ts + retention_days * day_ms))
      × ((r s : LogRow) → Elem r kept → Elem s recent → ¬ Elem s kept → s.ts ≤ r.ts)
      × (n + length recent ≡ length db.request_logs)
unfolding prune_logs
prune_logs_lem db now_ms retention_days max_entries h =
    let recent = within now_ms retention_days db.request_logs in
    let d = filter-DistinctBy log_id _ db.request_logs h.distinct in
    (
      omega (
        arith,
        length-select-le log_id (newest_ids max_entries recent) recent d,
        length-newest_ids max_entries recent,
      ),
      λ r m.
          let (there, young) = filter-Elem _ r db.request_logs (filter-Elem _ r recent m).0 in
          (there, leb→le _ _ young),
      λ r s m there gone. newer_leb→le r s (
          take-le-drop newer_leb max_entries r s (sort newer_leb recent)
            (sort-IsSorted newer_leb newer_leb-Total recent)
            (selected-take max_entries r recent d m)
            (unselected-drop max_entries s recent there gone)),
      omega (arith, length-filter-le _ db.request_logs),
    )

-- After a pruning at most `max_entries` logs are left, and each of them was there before and is
-- within the retention time; and the number returned, which `prune_logs` reports as the number of
-- deleted logs, counts only the logs that were too old.
pub prune_logs-within :
    (db : Database) (now_ms retention_days max_entries : ℕ)
    → HasIds db
    → let (after, n) = prune_logs db now_ms retention_days max_entries in
      (length after.request_logs ≤ max_entries)
      × All
          (λ r. Elem r db.request_logs × (now_ms ≤ r.ts + retention_days * day_ms))
          after.request_logs
      × (n + length (within now_ms retention_days db.request_logs) ≡ length db.request_logs)
unfolding prune_logs
prune_logs-within db now_ms retention_days max_entries h =
    let r = prune_logs_lem db now_ms retention_days max_entries h in
    (r.0, Elem-All _ (prune_logs db now_ms retention_days max_entries).0.request_logs r.1, r.3)

-- Of the logs within the retention time, one that a pruning takes out is no newer than any that it
-- leaves.
pub prune_logs-keeps_newest :
    (db : Database) (now_ms retention_days max_entries : ℕ) (r s : LogRow)
    → HasIds db
    → Elem r (prune_logs db now_ms retention_days max_entries).0.request_logs
    → Elem s (within now_ms retention_days db.request_logs)
    → ¬ Elem s (prune_logs db now_ms retention_days max_entries).0.request_logs
    → s.ts ≤ r.ts
prune_logs-keeps_newest db now_ms retention_days max_entries r s h =
    (prune_logs_lem db now_ms retention_days max_entries h).2 r s
