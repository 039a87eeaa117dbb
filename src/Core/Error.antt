-- ===== src/Core/Error.antt =====
-- kanbrick-core/src/error.rs: the error of every layer and its coarse kind.
use kanbrick_v.Common.{Text, codes, ◌++◌}
use kanbrick_v.Core.Clearance.{ClearanceLevel, display}

pub data ErrorKind : Type 0 where
  unauthorized not_found_kind query_error validation_error internal_kind : ErrorKind

pub data Error : Type 0 where
  access_denied : ClearanceLevel → ClearanceLevel → Error
  not_found invalid_input query store auth internal : Text → Error

unfoldable pub kind : Error → ErrorKind
kind (access_denied required actual) = unauthorized
kind (auth _) = unauthorized
kind (not_found _) = not_found_kind
kind (invalid_input _) = validation_error
kind (query _) = query_error
kind (store _) = query_error
kind (internal _) = internal_kind

-- The `Display` of an error.
unfoldable pub error_text : Error → Text
unfolding display
error_text (access_denied required actual) =
    codes "access denied: requires clearance "
    ++ (display required ++ (codes ", have " ++ display actual))
error_text (not_found t) = codes "not found: " ++ t
error_text (invalid_input t) = codes "invalid input: " ++ t
error_text (query t) = codes "query error: " ++ t
error_text (store t) = codes "store error: " ++ t
error_text (auth t) = codes "auth error: " ++ t
error_text (internal t) = codes "internal error: " ++ t
