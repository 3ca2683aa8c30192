-- ===== src/Lib.antt =====
-- The regime pipeline of xray-vision, from raw market events to the analysis of a run.
--
-- Raw events are numbered into a bounded buffer (src/orchestrator/buffer.py). On each tick of the
-- scheduler (scheduler.py) the runtime (src/runtime/wiring.py) cuts the buffer for each symbol
-- (cuts.py), runs the engine on the events of the cut (engine_runner.py), and publishes what came of
-- it (publisher.py, sequencing.py). In hysteresis mode the engine's regime is confirmed over several
-- updates (src/regime_engine/hysteresis/rules.py), and what changes is appended to a file from which
-- the state is restored (persistence.py). The state gate (src/consumers/state_gate) assembles the
-- published events of a run, decides whether its gate is open, and records what it gave out. Where
-- the gate is open, the analysis engine (src/consumers/analysis_engine) runs its modules in stages,
-- each with the artifacts that it depends on. The runtime logs its runs, and a log can be replayed
-- over the buffer (src/orchestrator/replay.py).
--
-- Files:
--   Base, Base/*: shared names, lists, dictionaries, results, floats, JSON values.
--   MarketData/Contracts: the raw event. Orchestrator/Contracts: the published events.
--   Orchestrator/Buffer, Cuts, Scheduler, Sequencing, Publisher, Retry, Lifecycle, Failure, Config,
--   EngineRunner: one module for each file of src/orchestrator with its operations by their names;
--   the modules below each hold its proofs.
--   RegimeEngine/Hysteresis/Rules, Store, Persistence: rules.py, state.py with process_state, and
--   persistence.py.
--   RegimeEngine/Veto, Resolution: src/regime_engine/veto, and resolution with scoring/weighted.py.
--   RegimeEngine/State: src/regime_engine/state without embedded_evidence.py.
--   Runtime, Runtime/Delivery: ingesting and cutting as steps of two threads, in any order.
--   Runtime/Publishing: the events of one run, and what the gate makes of them.
--   Orchestrator/RunLog, Replay: run_records.py with run_id.py, and replay.py.
--   Runtime/Due: `_run_due` of wiring.py, the ticks of all symbols with the run log; below it the
--   comparison with the replay.
--   Runtime/Subscriptions: the handlers of `register_subscriptions`, which publish from within.
--   StateGate/*: one module for each file of src/consumers/state_gate.
--   AnalysisEngine/*: one module for each file of src/consumers/analysis_engine; the search for
--   cycles of registry.py is in Cycles, and one run of `AnalysisEngine.consume` in Run.
--   Examples/*: concrete inputs, to which the theorems are applied.
--
-- How the code is read. A class is a record, a call that changes it gives the new record, an
-- exception is an error value, and what was written before it is kept. Integers that the code takes
-- as times, counts and numbers are naturals. Dictionaries are association lists in insertion order.
-- Clocks are arguments. Two loops of the analysis engine are on fuel: the search for cycles, with one
-- unit more than there are enabled modules, since a call that goes deeper is about one more of them,
-- and the queue of a stage, with one unit for each of its modules, since a module enters the queue
-- once. All else runs over lists, or over the attempts of a retry schedule.
--
-- Parameters: the operations on doubles (FloatOps, SumOps), the JSON functions and `str.strip`
-- (Codec), the regime pipeline (Pipeline), actions and sleepers of the retries, and how each
-- append to the file goes (WriteOutcome), what an append to the gate's store raises (StateStore),
-- and the builder and the renderer of the dashboards, which can raise (DashboardOps). For ticks
-- and replay: the snapshot of raw events, the engine with its state, the decimal form of a number
-- and the hash (Services, Hashing). For the analysis engine: what each module computes.
--
-- Not modelled: logs and metrics, the exchange adapters and decoders (src/market_data), the
-- features and evidence of src/composer, the scores and the confidence of src/regime_engine, the
-- dashboards (src/consumers), the bus and the start-up (src/runtime).
mod Base
pub mod MarketData
pub mod RegimeEngine
pub mod Orchestrator
pub mod Runtime
pub mod StateGate
pub mod AnalysisEngine
pub mod Examples
