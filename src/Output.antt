-- ===== src/Output.antt =====
-- The capture of what a script prints (src/uv_agent/runner/output.py). The two streams of a run are
-- pumped by two tasks that share an `OutputCapture`; a task waits only for the next chunk, so that a
-- run is a sequence of chunks, each of one stream.
pub mod Budget
mod Examples
use uv_agent.Common.{
  ℕ, ◌+◌, ◌-◌, Bool, true, false, List, [], ◌∷◌, ◌++◌, if◌then◌else◌, ltb, length, take,
}
use uv_agent.Common.Text.{Text, lit, concat}

pub data Name : Type 0 where
  stdout stderr : Name

-- What the run log is given: `run.stdout`, `run.stderr` and `run.output_truncated`.
pub data Event : Type 0 where
  printed : (name : Name) (text : Text) → Event
  output_truncated : Event

abbrev pub Bytes : Type 0
Bytes = List ℕ

-- `OUTPUT_TRUNCATION_MARKER`, `MAX_STDOUT_PARTS` and `MAX_STDERR_PARTS`
abbrev pub truncation_marker : Text
truncation_marker = lit "\n[uv-agent runner output truncated]\n"

abbrev pub max_parts : ℕ
max_parts = 256

-- `_coalesce_output_parts`
unfoldable pub coalesce : List Text → List Text
coalesce sink = if ltb max_parts (length sink) then concat sink ∷ [] else sink

abbrev pub set {ℓ} : {A : Type ℓ} → Name → A → (Name → A) → (Name → A)
set stdout a f stdout = a
set stdout a f stderr = f stderr
set stderr a f stdout = f stdout
set stderr a f stderr = a

-- The incremental decoder of Python: what it makes of more bytes, and of the end.
module _ (Decoder : Type 0) (decode : Decoder → Bytes → Text × Decoder)
    (flush : Decoder → Text × Decoder) where
  -- The sinks and the decoders of both streams, the shared `OutputCapture` and the log.
  pub record Run : Type 0 where
    pub sink : Name → List Text
    pub decoder : Name → Decoder
    pub byte_count : ℕ
    pub truncated : Bool
    pub log : List Event

  -- `record_output_text`
  unfoldable pub record_text : Name → Text → Run → Run
  record_text name [] r = r
  record_text name (c ∷ s) r = record r {
    sink = set name (coalesce (r.sink name ++ (c ∷ s) ∷ [])) r.sink;
    log = r.log ++ printed name (c ∷ s) ∷ [];
  }

  abbrev pub decoded : Name → Text × Decoder → Run → Run
  decoded name (text, d) r = record_text name text (record r { decoder = set name d r.decoder })

  -- The part of a chunk that still fits, and the end of its decoder.
  abbrev pub last_part : Name → Bytes → Run → Run
  last_part name [] r = r
  last_part name (b ∷ bs) r =
      let r' = decoded name (decode (r.decoder name) (b ∷ bs)) r in
      decoded name (flush (r'.decoder name)) r'

  -- The chunk that does not fit.
  unfoldable pub overrun : ℕ → Name → Bytes → Run → Run
  overrun max_output_bytes name chunk r =
      let r' = last_part name (take (max_output_bytes - r.byte_count) chunk) r in
      record r' {
        byte_count = r'.byte_count + length chunk;
        truncated = true;
        sink = set name (r'.sink name ++ truncation_marker ∷ []) r'.sink;
        log = r'.log ++ output_truncated ∷ [];
      }

  -- One turn of the loop of `pump_stream`.
  unfoldable pub pump_chunk : ℕ → Name → Bytes → Run → Run
  pump_chunk max_output_bytes name chunk r =
      if r.truncated
      then r
      else if ltb (max_output_bytes - r.byte_count) (length chunk)
      then overrun max_output_bytes name chunk r
      else decoded name (decode (r.decoder name) chunk)
          (record r { byte_count = r.byte_count + length chunk })

  -- The chunks of both streams, in the order in which they come.
  unfoldable pub pump : ℕ → List (Name × Bytes) → Run → Run
  pump max_output_bytes [] r = r
  pump max_output_bytes ((name, chunk) ∷ chunks) r =
      pump max_output_bytes chunks (pump_chunk max_output_bytes name chunk r)

  -- The end of `pump_stream`.
  unfoldable pub end_stream : Name → Run → Run
  end_stream name r = if r.truncated then r else decoded name (flush (r.decoder name)) r
