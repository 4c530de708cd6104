-- ===== src/Examples/Edits.antt =====
-- The results on UpdateTransaction and DeleteTemplates, each at a concrete database.
use orgfin_diploma.TransactionService.Templates.Foreign.{delete_templates-keeps_foreign}
use orgfin_diploma.TransactionService.Templates.{delete_templates}
use orgfin_diploma.TransactionService.Update.Settled.{update_transaction-IsSettled, updated_db}
use orgfin_diploma.TransactionService.Update.All.{IsRecalculable}
use orgfin_diploma.TransactionService.Recalc.Settled.{IsSettled}
use orgfin_diploma.TransactionService.Recalc.{recalculate_from_transactions, next_balance}
use orgfin_diploma.Exec.{ok}
use orgfin_diploma.TransactionService.{Input}
use orgfin_diploma.TransactionService.Update.{update_transaction, apply_input}
use orgfin_diploma.Repositories.Transactions.{for_recalc}
use orgfin_diploma.Examples.{
  book, svc, cash, savings, cash_found, savings_found, spend, expense, unique, expense-MayDelete,
}
use orgfin_diploma.Repositories.Transactions
use orgfin_diploma.Repositories.Templates as TemplateRows
use orgfin_diploma.Models.{Db, Template}
use orgfin_diploma.Prelude.{ℕ, ◌≡◌, refl, pos, [], ◌∷◌, ◌+ℤ◌, ◌-ℤ◌, All, some, none, false, arith}

-- Row 2 moves from account 1 to account 2.
abbrev move : Input
move = record (spend 40) { account_id = 2 }

move_balances : All (IsRecalculable (updated_db (apply_input move 0 expense) book)) (1 ∷ 2 ∷ [])
unfolding for_recalc Transactions.sort Transactions.insert_sorted Transactions.ordered
    Transactions.change apply_input recalculate_from_transactions next_balance ◌+ℤ◌ ◌-ℤ◌
move_balances = ((cash, pos 40, cash_found, refl), ((savings, pos 8, savings_found, refl), tt))

update_transaction-IsSettled_example :
    let (r, _, s') = update_transaction (λ l. l) (λ l. l) svc 0 1 move 2 [] book in
    (r ≡ ok (apply_input move 0 expense)) × All (λ a. IsSettled a s') (1 ∷ 2 ∷ [])
update_transaction-IsSettled_example =
    update_transaction-IsSettled (λ l. l) (λ l. l) svc 0 1 move 2 book expense-MayDelete
      savings_found refl refl refl move_balances unique

-- A template of user 2, and one of user 1.
abbrev template : ℕ → ℕ → Template
template i u = record {
  id = i;
  user_id = u;
  category_id = none;
  target_account_id = none;
  label = "rent";
}

abbrev templated : Db
templated = record book { templates = template 1 2 ∷ template 2 1 ∷ [] }

foreign_found : TemplateRows.find 1 templated.templates ≡ some (template 1 2)
unfolding TemplateRows.find
foreign_found = refl

delete_templates-keeps_foreign_example :
    TemplateRows.find 1
      (delete_templates (λ l. l) 1 (1 ∷ 2 ∷ []) (false ∷ []) templated).2.templates
    ≡ some (template 1 2)
delete_templates-keeps_foreign_example =
    delete_templates-keeps_foreign (λ l. l) 1 1 (1 ∷ 2 ∷ []) (false ∷ []) templated (template 1 2)
      foreign_found (omega arith)
