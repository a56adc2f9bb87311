-- ===== src/Errors/Tests.antt =====
-- The answers to two server errors and a client error.
use cortex_cm.Errors.{ClientError, ServerError}

abbrev lost : ServerError
lost = ServerError.internal_invariant_violation

abbrev denied : ClientError
denied = ClientError.permission_denied
