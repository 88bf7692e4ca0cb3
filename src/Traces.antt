-- ===== src/Traces.antt =====
-- app/services/publish_trace_store.py and app/models/trace_models.py: the bounded log of publish
-- attempts in a JSON file. A moment in time is a number.
pub mod Recent
pub mod Bounds
use mathlib.Core.List.{reverse}
use synthia_mqtt.Prelude.{
  ℕ, zero, suc, ◌-◌, String, Option, List, [], ◌∷◌, ◌++◌, length, drop, ltb, leb, if◌then◌else◌,
}
use synthia_mqtt.Json.{ℤ, pos, negsuc}

pub data Outcome : Type 0 where
  success denied error : Outcome

-- `PublishTraceLogRequest`
pub record TraceRequest : Type 0 where
  pub operation : String
  pub outcome : Outcome
  pub addon_id : Option String
  pub caller_sub : Option String
  pub topic : Option String
  pub detail : Option String
  pub message_id : Option String
  pub correlation_id : Option String

-- `PublishTraceRecord`: the request and the time.
pub record TraceRecord : Type 0 where
  pub timestamp : ℕ
  pub request : TraceRequest
  pub open request use *

-- An item of the stored list: an object that is a valid record, another object, another value.
pub data Entry : Type 0 where
  valid : TraceRecord → Entry
  invalid : Entry
  no_object : Entry

-- The file: not there, no JSON list, or a list of entries.
pub data TraceFile : Type 0 where
  missing unreadable : TraceFile
  entries : List Entry → TraceFile

-- `max(25, max_entries)`
unfoldable pub capacity : ℕ → ℕ
capacity max_entries = if ltb max_entries 25 then 25 else max_entries

unfoldable pub only_objects : List Entry → List Entry
only_objects [] = []
only_objects (no_object ∷ rest) = only_objects rest
only_objects (valid r ∷ rest) = valid r ∷ only_objects rest
only_objects (invalid ∷ rest) = invalid ∷ only_objects rest

unfoldable pub load_all : TraceFile → List Entry
unfolding only_objects
load_all missing = []
load_all unreadable = []
load_all (entries items) = only_objects items

-- `data[-n:]` where the list is longer than `n`.
unfoldable pub newest : {A : Type 0} → ℕ → List A → List A
newest n items = if ltb n (length items) then drop (length items - n) items else items

unfoldable pub append : ℕ → ℕ → TraceRequest → TraceFile → TraceFile
unfolding newest capacity
append max_entries now request file =
    let item = valid (record { timestamp = now; request = request }) in
    entries (newest (capacity max_entries) (load_all file ++ (item ∷ [])))

-- `max(1, min(limit, max_entries))`
unfoldable pub bounded_limit : ℕ → ℤ → ℕ
unfolding capacity
bounded_limit max_entries (negsuc n) = 1
bounded_limit max_entries (pos zero) = 1
bounded_limit max_entries (pos (suc n)) =
    if leb (suc n) (capacity max_entries) then suc n else capacity max_entries

-- The loop, with the room that is left.
unfoldable pub collect : ℕ → List Entry → List TraceRecord
collect zero items = []
collect (suc n) [] = []
collect (suc n) (valid r ∷ rest) = r ∷ collect n rest
collect (suc n) (invalid ∷ rest) = collect (suc n) rest
collect (suc n) (no_object ∷ rest) = collect (suc n) rest

unfoldable pub list_recent : ℕ → ℤ → TraceFile → List TraceRecord
unfolding collect
list_recent max_entries limit file =
    collect (bounded_limit max_entries limit) (reverse (load_all file))

-- The records of one attempt after the other, each with its time.
unfoldable pub append_all : ℕ → List TraceRecord → TraceFile → TraceFile
append_all max_entries [] file = file
append_all max_entries (r ∷ rest) file =
    append_all max_entries rest (append max_entries r.timestamp r.request file)
