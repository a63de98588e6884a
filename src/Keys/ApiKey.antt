-- ===== src/Keys/ApiKey.antt =====
-- `models/api_key.py`: the key, its counters as of today, and its row of the table `api_keys`.
-- Time, the calendar's texts and the random id are arguments.
use inter_gate.Base.{
  ℕ, ◌-◌, String, ◌<>◌, Bool, true, false, Option, none, some, List, [], ◌==◌, string_eq, ltb,
  nat_beq, if◌then◌else◌,
}
use inter_gate.Base.Int.{ℤ, pos, negsuc, pos_part}

pub data KeyStatus : Type 0 where
  active inactive exhausted error : KeyStatus

abbrev pub status_eq : KeyStatus → KeyStatus → Bool
status_eq KeyStatus.active KeyStatus.active = true
status_eq KeyStatus.inactive KeyStatus.inactive = true
status_eq KeyStatus.exhausted KeyStatus.exhausted = true
status_eq KeyStatus.error KeyStatus.error = true
status_eq _ _ = false

-- What the process reads off its clock: milliseconds, and the ISO texts of the day and the month.
pub record Now : Type 0 where
  pub ms : ℕ
  pub today : String
  pub month : String

abbrev pub Metadata : Type 0
Metadata = List (String × String)

pub record ApiKey : Type 0 where
  pub id : String
  pub provider : String
  pub encrypted_key : String
  pub name : String
  pub provider_id : String
  pub note : String
  pub base_url : Option String
  pub grp : String
  pub priority : ℤ
  pub weight : ℤ
  pub max_requests_per_minute : ℤ
  pub daily_quota : ℤ
  pub used_today : ℕ
  pub used_month : ℕ
  pub requests_today : ℕ
  pub requests_month : ℕ
  pub errors_today : ℕ
  pub day_stamp : String
  pub month_stamp : String
  pub status : KeyStatus
  pub last_tested : Option ℕ
  pub test_result : Option String
  pub test_error : Option String
  pub created_at : ℕ
  pub last_used : ℕ
  pub failure_count : ℕ
  pub cooldown_until : Option ℕ
  pub metadata : Metadata

-- A row of `api_keys`.
pub record KeyRow : Type 0 where
  pub id : String
  pub provider : String
  pub encrypted_key : String
  pub name : String
  pub provider_id : String
  pub note : String
  pub base_url : Option String
  pub grp : String
  pub priority : ℤ
  pub weight : ℤ
  pub max_requests_per_minute : ℤ
  pub daily_quota : ℤ
  pub used_today : ℕ
  pub used_month : ℕ
  pub requests_today : ℕ
  pub requests_month : ℕ
  pub errors_today : ℕ
  pub day_stamp : String
  pub month_stamp : String
  pub status : KeyStatus
  pub last_tested : Option ℕ
  pub test_result : Option String
  pub test_error : Option String
  pub created_at : ℕ
  pub last_used : ℕ
  pub failure_count : ℕ
  pub cooldown_until : Option ℕ
  pub metadata_json : String

-- `x or y` of texts
abbrev pub or_text : String → String → String
or_text a b = if a == "" then b else a

-- `x or None`
abbrev pub or_none : Option String → Option String
or_none none = none
or_none (some s) = if s == "" then none else some s

-- `x or y` of a number that may be missing or 0
abbrev pub or_nat : ℕ → ℕ → ℕ
or_nat a b = if nat_beq a 0 then b else a

module _ (k : ApiKey) (now : Now) where
  unfoldable pub is_today : Bool
  is_today = k.day_stamp == now.today

  unfoldable pub is_this_month : Bool
  is_this_month = k.month_stamp == now.month

  unfoldable pub today_used : ℕ
  unfolding is_today
  today_used = if is_today then k.used_today else 0

  unfoldable pub today_requests : ℕ
  unfolding is_today
  today_requests = if is_today then k.requests_today else 0

  unfoldable pub today_errors : ℕ
  unfolding is_today
  today_errors = if is_today then k.errors_today else 0

  unfoldable pub this_month_used : ℕ
  unfolding is_this_month
  this_month_used = if is_this_month then k.used_month else 0

  unfoldable pub this_month_requests : ℕ
  unfolding is_this_month
  this_month_requests = if is_this_month then k.requests_month else 0

  -- -1 stands for a key without a quota.
  unfoldable pub quota_remaining : ℤ
  unfolding today_used
  quota_remaining =
      if nat_beq (pos_part k.daily_quota) 0
      then negsuc 0
      else pos (pos_part k.daily_quota - today_used)

  unfoldable pub in_cooldown : Bool
  in_cooldown = elim k.cooldown_until [ none ↦ false | some t ↦ ltb now.ms t ]

  -- `to_db_dict`, with `json_dumps` of the metadata a parameter.
  unfoldable pub to_db_dict : (Metadata → String) → KeyRow
  unfolding is_today is_this_month today_used today_requests today_errors this_month_used
      this_month_requests
  to_db_dict json_dumps = record {
    id = k.id;
    provider = k.provider;
    encrypted_key = k.encrypted_key;
    name = k.name;
    provider_id = k.provider_id;
    note = k.note;
    base_url = elim k.base_url [ none ↦ some "" | some u ↦ some u ];
    grp = k.grp;
    priority = k.priority;
    weight = k.weight;
    max_requests_per_minute = k.max_requests_per_minute;
    daily_quota = k.daily_quota;
    used_today = today_used;
    used_month = this_month_used;
    requests_today = today_requests;
    requests_month = this_month_requests;
    errors_today = today_errors;
    day_stamp = if is_today then k.day_stamp else now.today;
    month_stamp = if is_this_month then k.month_stamp else now.month;
    status = k.status;
    last_tested = k.last_tested;
    test_result = k.test_result;
    test_error = k.test_error;
    created_at = k.created_at;
    last_used = k.last_used;
    failure_count = k.failure_count;
    cooldown_until = k.cooldown_until;
    metadata_json = json_dumps k.metadata;
  }

-- `ApiKey.from_dict` of a row, and the defaults of the constructor behind it. A row has no column
-- `metadata`, so that field is read as empty.
unfoldable pub from_row : KeyRow → String → Now → ApiKey
from_row d fresh_id now = record {
  id = or_text d.id fresh_id;
  provider = d.provider;
  encrypted_key = d.encrypted_key;
  name = or_text d.name (d.provider <> "-key");
  provider_id = d.provider_id;
  note = d.note;
  base_url = or_none d.base_url;
  grp = d.grp;
  priority = d.priority;
  weight = d.weight;
  max_requests_per_minute = d.max_requests_per_minute;
  daily_quota = d.daily_quota;
  used_today = d.used_today;
  used_month = d.used_month;
  requests_today = d.requests_today;
  requests_month = d.requests_month;
  errors_today = d.errors_today;
  day_stamp = d.day_stamp;
  month_stamp = d.month_stamp;
  status = d.status;
  last_tested = d.last_tested;
  test_result = d.test_result;
  test_error = d.test_error;
  created_at = or_nat d.created_at now.ms;
  last_used = d.last_used;
  failure_count = d.failure_count;
  cooldown_until = d.cooldown_until;
  metadata = [];
}
