-- ===== src/Orchestrator/RunLog.antt =====
-- src/orchestrator/run_records.py and run_id.py. The decimal form of a number and the hexadecimal
-- SHA-256 of a text are functions of libraries, and parameters here.
use Prim.Native.String.{◌++◌ as append_str}
use xray_vision.Base.{ℕ, String, List, [], ◌∷◌, ◌++◌}
use xray_vision.Orchestrator.Contracts.{EngineMode, truth, hysteresis, EngineRunRecord}

abbrev pub EngineRunLog : Type 0
EngineRunLog = List EngineRunRecord

unfoldable pub append : EngineRunLog → EngineRunRecord → EngineRunLog
append log r = log ++ (r ∷ [])

abbrev pub mode_text : EngineMode → String
mode_text truth = "truth"
mode_text hysteresis = "hysteresis"

pub record Hashing : Type 0 where
  pub decimal : ℕ → String
  pub sha256 : String → String

unfoldable pub derive_run_id : Hashing → String → ℕ → ℕ → EngineMode → String
derive_run_id h symbol ts cut_end mode = h.sha256 (
    append_str symbol (
      append_str "|" (
        append_str (h.decimal ts)
          (append_str "|" (append_str (h.decimal cut_end) (append_str "|" (mode_text mode)))))))
