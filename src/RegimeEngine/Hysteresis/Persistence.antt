-- ===== src/RegimeEngine/Hysteresis/Persistence.antt =====
-- src/regime_engine/hysteresis/persistence.py: the records of the store, one to a line. The JSON
-- functions and `str.strip` are Python's and enter as the record `Codec`; their text has no newline. A
-- file is what stands on it, or `none` where it does not exist.
pub mod RoundTrip
pub mod Restore
use xray_vision.Base.{
  ℕ, String, Option, none, some, List, [], ◌∷◌, ◌++◌, map, Bool, true, false, not, ◌||◌, Result, ok,
  err, leb, str_eq, if◌then◌else◌, ◌>>=◌, ◌>>◌, raise_if,
}
use Prim.Native.String.{◌++◌ as joined_to}
use xray_vision.Base.Int.{pos}
use xray_vision.Base.Dict
use xray_vision.Base.Dict.{Dict}
use xray_vision.Base.Values.{Value, null, int, str, mapping, Fields, end, field, field_get}
use xray_vision.RegimeEngine.Contracts.{Regime, value, all_regimes, HysteresisState}
use xray_vision.RegimeEngine.Hysteresis.Rules.{HysteresisConfig}
use xray_vision.RegimeEngine.Hysteresis.Store.{HysteresisStore, empty_store}

pub record HysteresisStoreRecord : Type 0 where
  pub symbol : String
  pub engine_timestamp_ms : ℕ
  pub anchor_regime : Regime
  pub candidate_regime : Option Regime
  pub progress_current : ℕ
  pub last_commit_timestamp_ms : Option ℕ

unfoldable pub build_record : HysteresisState → HysteresisStoreRecord
build_record s = record {
  symbol = s.symbol;
  engine_timestamp_ms = s.engine_timestamp_ms;
  anchor_regime = s.anchor_regime;
  candidate_regime = s.candidate_regime;
  progress_current = s.progress_current;
  last_commit_timestamp_ms = s.last_commit_timestamp_ms;
}

abbrev pub candidate_value : Option Regime → Value
candidate_value none = null
candidate_value (some r) = str (value r)

abbrev pub optional_int : Option ℕ → Value
optional_int none = null
optional_int (some n) = int (pos n)

unfoldable pub serialize_record : HysteresisStoreRecord → Fields
serialize_record r = field "schema" (str "hysteresis_store_record") (
    field "schema_version" (str "1") (
      field "symbol" (str r.symbol) (
        field "engine_timestamp_ms" (int (pos r.engine_timestamp_ms)) (
          field "anchor_regime" (str (value r.anchor_regime)) (
            field "candidate_regime" (candidate_value r.candidate_regime) (
              field "progress_current" (int (pos r.progress_current)) (
                field "last_commit_timestamp_ms" (optional_int r.last_commit_timestamp_ms)
                  end)))))))

pub data ParseError : Type 0 where
  invalid_record_schema symbol_empty not_a_string unknown_regime not_an_int negative : ParseError

abbrev pub is_str : Value → String → Bool
is_str (str s) t = str_eq s t
is_str _ t = false

-- A string that is not empty.
abbrev pub require_symbol : Value → Result ParseError String
require_symbol (str s) = if str_eq s "" then err symbol_empty else ok s
require_symbol _ = err symbol_empty

-- `_require_int`: a bool is no int here, and a negative number is refused.
abbrev pub require_int : Value → Result ParseError ℕ
require_int (int (pos n)) = ok n
require_int (int n) = err negative
require_int _ = err not_an_int

-- The loop of `_parse_regime` over the enum.
unfoldable pub find_regime : List Regime → String → Result ParseError Regime
find_regime [] v = err unknown_regime
find_regime (r ∷ rs) v = if str_eq (value r) v then ok r else find_regime rs v

abbrev pub parse_regime : Value → Result ParseError Regime
parse_regime (str s) = find_regime all_regimes s
parse_regime _ = err not_a_string

abbrev pub parse_candidate : Value → Result ParseError (Option Regime)
parse_candidate null = ok none
parse_candidate v = do r ← parse_regime v; ok (some r)

abbrev pub parse_last_commit : Value → Result ParseError (Option ℕ)
parse_last_commit null = ok none
parse_last_commit v = do n ← require_int v; ok (some n)

unfoldable pub parse_record : Fields → Result ParseError HysteresisStoreRecord
parse_record d = do
  raise_if
      (not (is_str (field_get d "schema") "hysteresis_store_record")
        || not (is_str (field_get d "schema_version") "1"))
      invalid_record_schema
  symbol ← require_symbol (field_get d "symbol")
  engine_timestamp_ms ← require_int (field_get d "engine_timestamp_ms")
  anchor_regime ← parse_regime (field_get d "anchor_regime")
  candidate_regime ← parse_candidate (field_get d "candidate_regime")
  progress_current ← require_int (field_get d "progress_current")
  last_commit ← parse_last_commit (field_get d "last_commit_timestamp_ms")
  ok (record {
    symbol = symbol;
    engine_timestamp_ms = engine_timestamp_ms;
    anchor_regime = anchor_regime;
    candidate_regime = candidate_regime;
    progress_current = progress_current;
    last_commit_timestamp_ms = last_commit;
  })

-- `json.dumps`, `json.loads` (`none` is its `JSONDecodeError`) and `str.strip`.
pub record Codec : Type 0 where
  pub dumps : Fields → String
  pub loads : String → Option Value
  pub strip : String → String

-- One record for each symbol: a later timestamp wins, and of equal ones the later line.
unfoldable pub newest :
    Dict HysteresisStoreRecord → HysteresisStoreRecord → Dict HysteresisStoreRecord
newest records r = elim (Dict.get records r.symbol) [
  | none ↦ Dict.put records r.symbol r
  | some old ↦
      if leb old.engine_timestamp_ms r.engine_timestamp_ms
      then Dict.put records r.symbol r
      else records
]

abbrev pub load_parsed : Dict HysteresisStoreRecord → Option Value → Dict HysteresisStoreRecord
load_parsed records (some (mapping d)) = elim (parse_record d) [
  | ok r ↦ newest records r
  | err e ↦ records
]
load_parsed records _ = records

-- The lines that end in a newline, and the text after the last newline.
pub record StoreFile : Type 0 where
  pub lines : List String
  pub tail : String

-- The lines as an iteration over the file gives them.
unfoldable pub file_lines : StoreFile → List String
file_lines f = if str_eq f.tail "" then f.lines else f.lines ++ f.tail ∷ []

-- `open(path, "a")`, which makes the file.
abbrev pub opened : Option StoreFile → StoreFile
opened none = record { lines = []; tail = "" }
opened (some f) = f

-- What text without a newline makes of the tail.
unfoldable pub extended : String → String → String
extended tail text = if str_eq tail "" then text else joined_to tail text

-- How `append_record` goes: it returns, or it raises before the file is open, or with some of the text
-- on the file, or with all of it.
pub data WriteOutcome : Type 0 where
  written not_opened not_synced : WriteOutcome
  torn : String → WriteOutcome

abbrev pub returns : WriteOutcome → Bool
returns written = true
returns _ = false

module _ (codec : Codec) where
  unfoldable pub encode_record : HysteresisStoreRecord → String
  encode_record r = codec.dumps (serialize_record r)

  -- One line of `_load_records`; what does not parse is skipped.
  unfoldable pub load_line : Dict HysteresisStoreRecord → String → Dict HysteresisStoreRecord
  load_line records line =
      let raw = codec.strip line in
      if str_eq raw "" then records else load_parsed records (codec.loads raw)

  unfoldable pub load_lines : Dict HysteresisStoreRecord → List String → Dict HysteresisStoreRecord
  load_lines records [] = records
  load_lines records (line ∷ lines) = load_lines (load_line records line) lines

  unfoldable pub load_records : List String → Dict HysteresisStoreRecord
  load_records lines = load_lines [] lines

  -- The file after `append_record`, where the writing succeeds.
  unfoldable pub append_record : Option StoreFile → HysteresisState → Option StoreFile
  append_record file s = some (record {
    lines =
        (opened file).lines ++ extended (opened file).tail (encode_record (build_record s)) ∷ [];
    tail = "";
  })

  -- The file after `append_record`, however it went.
  unfoldable pub file_after : WriteOutcome → Option StoreFile → HysteresisState → Option StoreFile
  file_after written file s = append_record file s
  file_after not_opened file s = file
  file_after not_synced file s = append_record file s
  file_after (torn part) file s =
      some (record { lines = (opened file).lines; tail = extended (opened file).tail part })

unfoldable pub restore_state : HysteresisConfig → HysteresisStoreRecord → HysteresisState
restore_state config r = record {
  schema = "hysteresis_state";
  schema_version = "1";
  symbol = r.symbol;
  engine_timestamp_ms = r.engine_timestamp_ms;
  anchor_regime = r.anchor_regime;
  candidate_regime = r.candidate_regime;
  progress_current = r.progress_current;
  progress_required = config.window_updates;
  last_commit_timestamp_ms = r.last_commit_timestamp_ms;
  reason_codes = [];
  debug = none;
}

abbrev pub restore_states : HysteresisConfig → Dict HysteresisStoreRecord → Dict HysteresisState
restore_states config = map (λ e. (e.0, restore_state config e.1))

pub data RestoreError : Type 0 where
  no_valid_records : RestoreError

abbrev pub restore_loaded :
    HysteresisConfig → Dict HysteresisStoreRecord → Result RestoreError HysteresisStore
restore_loaded config [] = err no_valid_records
restore_loaded config (e ∷ es) = ok (record { states = restore_states config (e ∷ es) })

unfoldable pub restore_store :
    Codec → HysteresisConfig → Option StoreFile → Result RestoreError HysteresisStore
restore_store codec config none = ok empty_store
restore_store codec config (some f) = restore_loaded config (load_records codec (file_lines f))
