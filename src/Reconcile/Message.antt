-- ===== src/Reconcile/Message.antt =====
-- The message of the condition (operator/internal/controller/reconciliation_main.go).
use permission_binder_operat.Prelude.{ℕ, zero, suc, String, if◌then◌else◌, ltb, eqb, true, false}
use permission_binder_operat.GoString.{◌<>◌}
use Prim.Native.Nat.{◌/◌, ◌%◌}

digit : ℕ → String
digit n =
    if eqb n 0
    then "0"
    else if eqb n 1
    then "1"
    else if eqb n 2
    then "2"
    else if eqb n 3
    then "3"
    else if eqb n 4
    then "4"
    else if eqb n 5
    then "5"
    else if eqb n 6
    then "6"
    else if eqb n 7
    then "7"
    else if eqb n 8
    then "8"
    else "9"

-- At most `fuel` digits.
decimal_from : ℕ → ℕ → String
decimal_from zero n = ""
decimal_from (suc fuel) n = elim (ltb n 10) [
  | true ↦ digit n
  | false ↦ decimal_from fuel (n / 10) <> digit (n % 10)
]

-- `%d`: a number has no more digits than its successor says.
unfoldable pub decimal : ℕ → String
unfolding decimal_from digit
decimal n = decimal_from (suc n) n

unfoldable pub success_message : ℕ → ℕ → String
success_message role_bindings service_accounts =
    "Successfully processed "
    <> decimal role_bindings
    <> " role bindings and "
    <> decimal service_accounts
    <> " service accounts"
