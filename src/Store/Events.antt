-- ===== src/Store/Events.antt =====
-- The append-only log of events of src/sf_factory/db.py, and its readers in src/sf_factory/scheduler.py.
pub mod Laws
use mathlib.Core.List.{reverse}
use sf_f.Base.{
  max, ℕ, String, Bool, Option, some, List, [], ◌∷◌, ◌==◌, string_eq, option_eq, contains, find,
  get_or, is_none, not, ◌&&◌, ◌||◌,
}
use sf_f.Base.Raises.{factory_error, sqlite_integrity_error}
use sf_f.Models.Json.{Payload}
use sf_f.Models.Records.{Time, Event}
use sf_f.Store.Table
use sf_f.Store.Db.{Db}
use sf_f.Store.Tx.{Tx, ◌>>=◌, ◌>>◌, pure, gets, put, check}

-- The keyword arguments of `insert_event`.
pub record NewEvent : Type 0 where
  pub unit_level : String
  pub unit_id : Option String
  pub event_type : String
  pub actor : String
  pub from_state : Option String
  pub to_state : Option String
  pub payload : Option Payload

abbrev pub event_of : Time → NewEvent → ℕ → Event
event_of now e n = record {
  seq = n;
  unit_level = e.unit_level;
  unit_id = e.unit_id;
  event_type = e.event_type;
  from_state = e.from_state;
  to_state = e.to_state;
  actor = e.actor;
  payload = get_or e.payload [];
  created_at = now;
}

-- Only a 'factory' event may have no unit; the CHECK of the column admits three levels.
unfoldable pub insert_event : Time → NewEvent → Tx ℕ
unfolding Table.insert
insert_event now e = do
  check (not (is_none e.unit_id) || e.unit_level == "factory") factory_error
  check (contains e.unit_level ("phase" ∷ "stage" ∷ "factory" ∷ [])) sqlite_integrity_error
  seq ← gets (λ d. Table.next_id d.events)
  put (λ d. record d { events = Table.insert (event_of now e) d.events })
  pure seq

-- `_max_event_seq`: SELECT COALESCE(MAX(seq), 0); rows are never deleted.
abbrev pub max_key : {R : Type 0} → List (ℕ × R) → ℕ
max_key [] = 0
max_key ((n, r) ∷ rows) = max n (max_key rows)

unfoldable pub max_event_seq : Db → ℕ
max_event_seq d = max_key d.events.rows

abbrev pub is_event : String → String → String → Event → Bool
is_event unit_level unit_id event_type e =
    e.unit_level == unit_level && (e.unit_id == some unit_id && e.event_type == event_type)

-- The latest event of a type of one unit (ORDER BY seq DESC LIMIT 1).
unfoldable pub last_event : String → String → String → Db → Option Event
last_event unit_level unit_id event_type d =
    find (is_event unit_level unit_id event_type) (reverse (Table.values d.events))
