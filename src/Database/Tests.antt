-- ===== src/Database/Tests.antt =====
-- Runs of the policies and of a transaction that fails.
use cortex_cm.Base.{◌≡◌, refl, true, []}
use cortex_cm.Result.{raise}
use cortex_cm.Errors.{client_error, store_not_found}
use cortex_cm.Auth.Context.{is_valid_context}
use cortex_cm.Auth.Email.{email_matches}
use cortex_cm.Database.Tables.{Db}
use cortex_cm.Database.Session.{session_of, admits}
use cortex_cm.Database.Txn.{Txn, modify, throw, ◌>>◌, run_in_session}
use cortex_cm.Samples.{acme, member}

caller_is_valid : is_valid_context member ≡ true
unfolding is_valid_context email_matches
caller_is_valid = refl

own_row : admits (session_of member) 1 ≡ true
unfolding admits
own_row = refl

drop_stores : Db → Db
drop_stores db = record db { stores = [] }

-- It writes, then raises.
failing : Txn (Unit {0})
failing = modify drop_stores >> throw (client_error store_not_found)

failing_raises : (run_in_session failing acme).0 ≡ raise (client_error store_not_found)
unfolding run_in_session failing
failing_raises = refl
