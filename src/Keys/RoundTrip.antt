-- ===== src/Keys/RoundTrip.antt =====
-- What a key keeps across a restart: written by `to_db_dict`, read back by `from_dict`.
use inter_gate.Base.{
  String, ◌≡◌, refl, ◌≢◌, Option, none, some, [], arith, ◌==◌, string_eq, if◌then◌else◌, eq_ne,
}
use inter_gate.Keys.ApiKey.{
  ApiKey, Now, Metadata, or_none, today_used, today_requests, today_errors, this_month_used,
  this_month_requests, to_db_dict, from_row,
}

-- The key with the counters of another day or month dropped, and without its metadata.
abbrev pub rolled_over : ApiKey → Now → ApiKey
rolled_over k now = record k {
  base_url = or_none k.base_url;
  used_today = today_used k now;
  requests_today = today_requests k now;
  errors_today = today_errors k now;
  used_month = this_month_used k now;
  requests_month = this_month_requests k now;
  day_stamp = now.today;
  month_stamp = now.month;
  metadata = [];
}

stamp_now : (stamp today : String) → (if stamp == today then stamp else today) ≡ today
stamp_now stamp today = ground (arith, string_eq.equal_iff stamp today)

or_none-some :
    (u : Option String) → or_none (elim u [ none ↦ some "" | some v ↦ some v ]) ≡ or_none u
or_none-some none = refl
or_none-some (some u) = refl

-- A key with an id, a name and a time of creation, written to the database and read back at the
-- same moment, has the counters that it showed, today's stamps, and every other field unchanged
-- but the metadata, which is lost.
pub from_row-to_db_dict :
    (k : ApiKey) (now : Now) (json_dumps : Metadata → String) (fresh_id : String)
    → k.id ≢ ""
    → k.name ≢ ""
    → k.created_at ≢ 0
    → from_row (to_db_dict k now json_dumps) fresh_id now ≡ rolled_over k now
unfolding from_row to_db_dict
from_row-to_db_dict k now json_dumps fresh_id hid hname hat = ground (
  arith,
  eq_ne k.id "" hid,
  eq_ne k.name "" hname,
  stamp_now k.day_stamp now.today,
  stamp_now k.month_stamp now.month,
  or_none-some k.base_url,
)
