-- ===== src/Diagnostics.antt =====
-- The sink of diagnostics of src/common/diagnostic.c, with the state of src/cc64.h. The field `count` of
-- the sink is the length of `items`; a null pointer to a source is none.
use cc.Base.{ℕ, ◌*◌, Bool, List, [], ◌∷◌, ◌++◌, length, Option, ◌==◌, if◌then◌else◌, codes}

pub data DiagnosticPhase : Type 0 where
  diag_driver diag_lex diag_preprocess diag_parse diag_semantic : DiagnosticPhase
  diag_ir diag_backend diag_link diag_runtime diag_internal : DiagnosticPhase

-- The `length` of a source is that of `bytes`.
pub record Source : Type 0 where
  pub path : List ℕ
  pub bytes : List ℕ
  pub id : ℕ

pub record Diagnostic : Type 0 where
  pub id : ℕ
  pub phase : DiagnosticPhase
  pub source : Option Source
  pub line : ℕ
  pub column : ℕ
  pub message : List ℕ

pub record DiagnosticSink : Type 0 where
  pub items : List Diagnostic
  pub capacity : ℕ
  pub limit : ℕ
  pub warnings_are_errors : Bool

unfoldable pub diagnostic_phase_name : DiagnosticPhase → List ℕ
diagnostic_phase_name diag_driver = codes "driver"
diagnostic_phase_name diag_lex = codes "lex"
diagnostic_phase_name diag_preprocess = codes "preprocess"
diagnostic_phase_name diag_parse = codes "parse"
diagnostic_phase_name diag_semantic = codes "semantic"
diagnostic_phase_name diag_ir = codes "ir"
diagnostic_phase_name diag_backend = codes "backend"
diagnostic_phase_name diag_link = codes "link"
diagnostic_phase_name diag_runtime = codes "runtime"
diagnostic_phase_name diag_internal = codes "internal"

-- A limit of zero is taken as a hundred, and stays so.
unfoldable pub with_limit : DiagnosticSink → DiagnosticSink
with_limit sink = if sink.limit == 0 then record sink { limit = 100 } else sink

-- The entry, in an array that doubles when it is full.
unfoldable pub put_item : DiagnosticSink → Diagnostic → DiagnosticSink
put_item sink item =
    let grown = if sink.capacity == 0 then 16 else sink.capacity * 2 in
    record sink {
      items = sink.items ++ (item ∷ []);
      capacity = (if length sink.items == sink.capacity then grown else sink.capacity);
    }

unfoldable pub diagnostic_emit : DiagnosticSink → Diagnostic → DiagnosticSink
diagnostic_emit sink item =
    let limited = with_limit sink in
    if length limited.items == limited.limit then limited else put_item limited item

unfoldable pub diagnostic_error_count : DiagnosticSink → ℕ
diagnostic_error_count sink = length sink.items

unfoldable pub diagnostic_sink_destroy : DiagnosticSink → DiagnosticSink
diagnostic_sink_destroy sink = record sink { items = []; capacity = 0 }
