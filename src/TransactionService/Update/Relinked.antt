-- ===== src/TransactionService/Update/Relinked.antt =====
-- UpdateTransaction of a transfer that stays one, run without a fault.
use orgfin_diploma.TransactionService.Update.Settled.{updated_db}
use orgfin_diploma.TransactionService.{Input, value_or}
use orgfin_diploma.TransactionService.Update.{apply_input, add_account, apply_input_linked}
use orgfin_diploma.Repositories.Accounts
use orgfin_diploma.Repositories.Transactions
use orgfin_diploma.Prelude.{ℕ, List, [], ◌∷◌, All}
use orgfin_diploma.Models.{Db, Transaction, Time}

-- The other account of the transfer: the one that the input names, or the one it had.
abbrev pub new_target : Input → Transaction → ℕ
new_target i linked = value_or linked.account_id i.target_account_id

-- The rows of both sides with the fields of the input.
abbrev pub both_updated : Input → Time → Transaction → Transaction → Db → Db
both_updated i now existing linked s =
    updated_db (apply_input i now existing)
      (updated_db (apply_input_linked i now (new_target i linked) linked) s)

-- The accounts of both sides, before and after.
abbrev pub four_accounts : Input → Transaction → Transaction → List ℕ
four_accounts i existing linked =
    add_account linked.account_id
      (add_account (new_target i linked) (add_account existing.account_id (i.account_id ∷ [])))
