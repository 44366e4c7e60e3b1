-- ===== src/Service/Owner/Desk.antt =====
-- What OwnerService of internal/service/owner.go does about money and cancellations: each call asks for a
-- signed-in owner, and leaves the rest to the repository. `at` is the service's clock.
use khel_arena.Prelude.{ℕ}
use khel_arena.Domain.Errors.{Result, ok, err}
use khel_arena.Domain.Payment.{Payment}
use khel_arena.Store.Tables.{Tx}
use khel_arena.Store.Cancellation.{restore_penalty}
use khel_arena.Store.Payments.{mark_refunded}
use khel_arena.Store.Cash.{approve_cash, decline_cash}
use khel_arena.Store.Cash
use khel_arena.Service.Owner.{signed_in}

abbrev pub then_run : {A : Type 0} → Result (Unit {0}) → Tx A → Tx A
then_run (ok u) run db = run db
then_run (err e) run db = (err e, db)

-- RestoreScore
unfoldable pub restore_score : ℕ → ℕ → ℕ → Tx (Unit {0})
restore_score booking owner now = then_run (signed_in owner) (restore_penalty booking owner now)

-- MarkCashReceived
unfoldable pub mark_cash_received : ℕ → ℕ → ℕ → ℕ → Tx Payment
mark_cash_received id owner at now =
    then_run (signed_in owner) (Cash.mark_cash_received id owner at now)

-- MarkRefunded
unfoldable pub refund : ℕ → ℕ → ℕ → Tx Payment
refund id owner now = then_run (signed_in owner) (mark_refunded id owner now)

-- ApproveCashBooking
unfoldable pub approve_cash_booking : ℕ → ℕ → ℕ → Tx Payment
approve_cash_booking id owner now = then_run (signed_in owner) (approve_cash id owner now)

-- DeclineCashBooking
unfoldable pub decline_cash_booking : ℕ → ℕ → Tx Payment
decline_cash_booking id owner = then_run (signed_in owner) (decline_cash id owner)
