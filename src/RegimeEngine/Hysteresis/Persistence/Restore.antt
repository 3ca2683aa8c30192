-- ===== src/RegimeEngine/Hysteresis/Persistence/Restore.antt =====
-- Appending and restoring in src/regime_engine/hysteresis/persistence.py.
use mathlib.Core.Option
use mathlib.Core.Path.{subst}
use xray_vision.Base.{
  ℕ, ◌≤◌, ◌≡◌, ◌≢◌, refl, sym, ap, ◌∙◌, String, Option, none, some, List, [], ◌∷◌, ◌++◌, Bool, true,
  false, ok, arith, str_eq, str_refl, if◌then◌else◌, leb,
}
use xray_vision.Base.Dict
use xray_vision.Base.Dict.{Dict, get-put}
use xray_vision.Base.Values.{mapping, Fields, field_get}
use xray_vision.RegimeEngine.Contracts.{HysteresisState}
use xray_vision.RegimeEngine.Hysteresis.Rules.{HysteresisConfig}
use xray_vision.RegimeEngine.Hysteresis.Store.{HysteresisStore}
use xray_vision.RegimeEngine.Hysteresis.Persistence.{
  Codec, StoreFile, file_lines, extended, HysteresisStoreRecord, build_record, serialize_record,
  newest, load_parsed, encode_record, load_line, load_lines, load_records, append_record,
  restore_state, restore_states, restore_loaded, restore_store,
}
use xray_vision.RegimeEngine.Hysteresis.Persistence.RoundTrip.{parse_record-serialize, nonempty}

-- What is relied on of the JSON functions: the text of a record's mapping loads as a mapping with the
-- same entries, though perhaps in another order, and is not blank.
pub record IsCodec (codec : Codec) : Type 0 where
  pub round :
      (r : HysteresisStoreRecord)
      → r.symbol ≢ ""
      → (g : Fields) × (codec.loads (codec.strip (codec.dumps (serialize_record r)))
          ≡ some (mapping g))
        × ((k : String) → field_get g k ≡ field_get (serialize_record r) k)
  pub printed :
      (r : HysteresisStoreRecord)
      → r.symbol ≢ ""
      → codec.strip (codec.dumps (serialize_record r)) ≢ ""

-- The record that a file holds for a symbol.
abbrev pub on_file : Codec → Option StoreFile → String → Option HysteresisStoreRecord
on_file codec none j = none
on_file codec (some f) j = Dict.get (load_records codec (file_lines f)) j

-- The last line of a file, where there is one, ends in a newline.
abbrev pub IsEnded : Option StoreFile → Type 0
IsEnded none = Unit {0}
IsEnded (some f) = f.tail ≡ ""

-- No record of the symbol on the file is newer.
abbrev pub NotNewer : Option HysteresisStoreRecord → ℕ → Type 0
NotNewer none ts = Unit {0}
NotNewer (some old) ts = old.engine_timestamp_ms ≤ ts

get-newest :
    (records : Dict HysteresisStoreRecord) (r : HysteresisStoreRecord) (j : String)
    (o : Option HysteresisStoreRecord)
    → Dict.get records r.symbol ≡ o
    → NotNewer o r.engine_timestamp_ms
    → Dict.get (newest records r) j ≡ (if str_eq r.symbol j then some r else Dict.get records j)
unfolding newest
get-newest records r j none e h = rw (e, newest) (get-put records r.symbol j r)
get-newest records r j (some old) e h =
    let le : leb old.engine_timestamp_ms r.engine_timestamp_ms ≡ true = ground arith in
    rw (e, newest, le) (get-put records r.symbol j r)

get-newest-eq :
    (records : Dict HysteresisStoreRecord) (r : HysteresisStoreRecord) (symbol : String) (ts : ℕ)
    (o : Option HysteresisStoreRecord) (j : String)
    → r.symbol ≡ symbol
    → r.engine_timestamp_ms ≡ ts
    → Dict.get records symbol ≡ o
    → NotNewer o ts
    → Dict.get (newest records r) j ≡ (if str_eq symbol j then some r else Dict.get records j)
get-newest-eq records r symbol ts o j p q e h =
    rw (← p) (get-newest records r j o (rw p e) (subst (NotNewer o) (sym q) h))

pub ne-nil_of_get : {V : Type 0} (d : Dict V) (k : String) (v : V) → Dict.get d k ≡ some v → d ≢ []
unfolding Dict.get
ne-nil_of_get [] k v h = cc
ne-nil_of_get (e ∷ d) k v h = λ q. cc

load_lines-append :
    (codec : Codec) (records : Dict HysteresisStoreRecord) (lines : List String) (line : String)
    → load_lines codec records (lines ++ line ∷ [])
      ≡ load_line codec (load_lines codec records lines) line
unfolding load_lines
load_lines-append codec records [] line = refl
load_lines-append codec records (l ∷ lines) line =
    load_lines-append codec (load_line codec records l) lines line

module _ (codec : Codec) (laws : IsCodec codec) where
  load_line-encode :
      (records : Dict HysteresisStoreRecord) (r : HysteresisStoreRecord)
      → r.symbol ≢ ""
      → load_line codec records (encode_record codec r) ≡ newest records r
  unfolding load_line encode_record
  load_line-encode records r ne =
      let (g, loaded, same) = laws.round r ne in
      rw (
        nonempty (codec.strip (codec.dumps (serialize_record r))) (laws.printed r ne),
        loaded,
        parse_record-serialize r g ne same,
        load_parsed,
      )

  -- The file with one record more.
  load_records-append :
      (file : Option StoreFile) (s : HysteresisState)
      → s.symbol ≢ ""
      → IsEnded file
      → (f : StoreFile) × (records : Dict HysteresisStoreRecord) × (append_record codec file s
          ≡ some f)
        × (load_records codec (file_lines f) ≡ newest records (build_record s))
        × ((j : String) → Dict.get records j ≡ on_file codec file j)
  unfolding append_record load_records build_record file_lines extended
  load_records-append none s ne ended = (
    record { lines = encode_record codec (build_record s) ∷ []; tail = "" },
    [],
    refl,
    unfold load_lines in load_line-encode [] (build_record s) ne,
    λ j. unfold Dict.get in refl,
  )
  load_records-append (some f) s ne ended = (
    record { lines = f.lines ++ encode_record codec (build_record s) ∷ []; tail = "" },
    load_lines codec [] f.lines,
    rw ended refl,
    load_lines-append codec [] f.lines (encode_record codec (build_record s))
        ∙ load_line-encode (load_lines codec [] f.lines) (build_record s) ne,
    λ j. rw ended refl,
  )

  -- What the longer file holds.
  pub on_file-append :
      (file : Option StoreFile) (s : HysteresisState)
      → s.symbol ≢ ""
      → IsEnded file
      → NotNewer (on_file codec file s.symbol) s.engine_timestamp_ms
      → (f : StoreFile) × (append_record codec file s ≡ some f)
        × ((j : String)
            → on_file codec (some f) j
              ≡ (if str_eq s.symbol j then some (build_record s) else on_file codec file j))
  on_file-append file s ne ended nn =
      let (f, records, e, l, same) = load_records-append file s ne ended in
      (
        f,
        e,
        λ j. rw l (
            get-newest-eq records (build_record s) s.symbol s.engine_timestamp_ms
              (on_file codec file s.symbol) j (unfold build_record in refl)
              (unfold build_record in refl) (same s.symbol) nn
            ∙ ap (λ o. if str_eq s.symbol j then some (build_record s) else o) (same j)),
      )

pub get-map :
    (config : HysteresisConfig) (d : Dict HysteresisStoreRecord) (j : String)
    → Dict.get (restore_states config d) j ≡ Option.map (restore_state config) (Dict.get d j)
unfolding Dict.get
get-map config [] j = refl
get-map config ((k, r) ∷ d) j = ground (arith, get-map config d j)

map-if :
    {A B : Type 0} (f : A → B) (b : Bool) (x : A) (o : Option A)
    → Option.map f (if b then some x else o) ≡ (if b then some (f x) else Option.map f o)
map-if f true x o = refl
map-if f false x o = refl

pub restore_loaded-some :
    (config : HysteresisConfig) (d : Dict HysteresisStoreRecord)
    → d ≢ []
    → restore_loaded config d ≡ ok (record { states = restore_states config d })
restore_loaded-some config [] h = absurd (h refl)
restore_loaded-some config (e ∷ es) h = refl

-- After a state with a symbol is appended to a file that holds no newer record of the symbol and,
-- if it is there, ends in a newline, the restore succeeds, given that the codec loads what it
-- writes for a record. It gives the symbol the appended state (its anchor, candidate, progress and
-- last commit, with the window of the configuration), and every other symbol what the file gave it
-- before.
pub restore_after_append :
    (codec : Codec) (config : HysteresisConfig) (file : Option StoreFile) (s : HysteresisState)
    → IsCodec codec
    → s.symbol ≢ ""
    → IsEnded file
    → NotNewer (on_file codec file s.symbol) s.engine_timestamp_ms
    → (store : HysteresisStore) × (restore_store codec config (append_record codec file s)
        ≡ ok store)
      × ((j : String)
          → Dict.get store.states j ≡ (
              if str_eq s.symbol j
              then some (restore_state config (build_record s))
              else Option.map (restore_state config) (on_file codec file j)))
unfolding restore_store
restore_after_append codec config file s laws ne ended nn =
    let (f, e, got) = on_file-append codec laws file s ne ended nn in
    let records = load_records codec (file_lines f) in
    let self : Dict.get records s.symbol ≡ some (build_record s) =
      got s.symbol ∙ rw (str_refl s.symbol) refl in
    (
      record { states = restore_states config records },
      rw (e, restore_store)
          (restore_loaded-some config records
            (ne-nil_of_get records s.symbol (build_record s) self)),
      λ j.
          get-map config records j
          ∙ ap (Option.map (restore_state config)) (got j)
          ∙ map-if (restore_state config) (str_eq s.symbol j) (build_record s)
              (on_file codec file j),
    )
