-- ===== src/Mesh/Error.antt =====
-- kanbrick-mesh/src/error.rs: `MeshError`, its text, and its passage to the core error.
use kanbrick_v.Common.{Text, codes, ◌++◌}
use kanbrick_v.Core.Error.{Error, not_found, internal}

pub data MeshError : Type 0 where
  engine link guest_not_found : Text → MeshError
  timeout : (name : Text) → MeshError
  compile instantiate trap resource_limited bad_output : (name detail : Text) → MeshError
  missing_export : (name export detail : Text) → MeshError

-- `debug` is the quoted form that the standard library gives a string under `{:?}`.
module _ (debug : Text → Text) where
  unfoldable pub mesh_error_text : MeshError → Text
  mesh_error_text (engine t) = codes "failed to create wasm engine: " ++ t
  mesh_error_text (compile name detail) =
      codes "failed to compile guest module " ++ debug name ++ codes ": " ++ detail
  mesh_error_text (link t) = codes "failed to link host functions: " ++ t
  mesh_error_text (instantiate name detail) =
      codes "failed to instantiate guest " ++ debug name ++ codes ": " ++ detail
  mesh_error_text (missing_export name export detail) =
      codes "guest "
      ++ debug name
      ++ codes " is missing the required export "
      ++ debug export
      ++ codes ": "
      ++ detail
  mesh_error_text (trap name detail) = codes "guest " ++ debug name ++ codes " trapped: " ++ detail
  mesh_error_text (timeout name) = codes "guest " ++ debug name ++ codes " timed out and was killed"
  mesh_error_text (resource_limited name detail) =
      codes "guest " ++ debug name ++ codes " exceeded its resource limits: " ++ detail
  mesh_error_text (bad_output name detail) =
      codes "guest " ++ debug name ++ codes " returned an invalid result region: " ++ detail
  mesh_error_text (guest_not_found name) = codes "no guest registered under the name " ++ debug name

  -- `From<MeshError> for kanbrick_core::Error`
  unfoldable pub to_core_error : MeshError → Error
  to_core_error (guest_not_found name) = not_found (codes "guest " ++ debug name)
  to_core_error e = internal (mesh_error_text e)
