-- ===== src/TransactionService/Templates.antt =====
-- GetTemplates, UpdateTemplate and DeleteTemplates of
-- backend/internal/services/transactions/service.go.
pub mod Foreign
use orgfin_diploma.Prelude.{ℕ, not, Option, none, some, List, [], ◌∷◌, String, ◌==◌}
use orgfin_diploma.Models.{Template}
use orgfin_diploma.Exec.{Error, Exec, pure, ◌>>=◌, ◌>>◌, raise_if, no_rows_as, attempt, try, when}
use orgfin_diploma.Repositories.Templates as TemplateRows
use orgfin_diploma.TransactionService.{active_user, own_account}

unfoldable pub get_templates : (List Template → List Template) → ℕ → Exec (List Template)
get_templates by_label user_id = do
  active_user user_id
  TemplateRows.get_by_user_id by_label user_id

unfoldable pub own_template : ℕ → ℕ → Exec Template
own_template user_id template_id = do
  template ← no_rows_as Error.template_not_found (TemplateRows.get_by_id template_id)
  raise_if (not (template.user_id == user_id)) Error.access_denied
  pure template

-- A target account, if one is given, must be the user's.
unfoldable pub check_target : ℕ → Option ℕ → Exec (Unit {0})
check_target user_id none = pure tt
check_target user_id (some t) = do own_account user_id t; pure tt

unfoldable pub update_template : ℕ → ℕ → String → Option ℕ → Option ℕ → Exec Template
unfolding own_template check_target
update_template user_id template_id label category_id target_account_id = do
  active_user user_id
  template ← own_template user_id template_id
  check_target user_id target_account_id
  TemplateRows.update (record template {
    label = label;
    category_id = category_id;
    target_account_id = target_account_id;
  })
  TemplateRows.get_by_id template_id

-- The body of the loop of DeleteTemplates, past a successful lookup.
unfoldable pub delete_own : ℕ → ℕ → Option Template → Exec (Unit {0})
delete_own user_id id none = pure tt
delete_own user_id id (some template) =
    when (template.user_id == user_id) (attempt (TemplateRows.delete id))

unfoldable pub delete_each : ℕ → List ℕ → Exec (Unit {0})
unfolding delete_own
delete_each user_id [] = pure tt
delete_each user_id (id ∷ ids) = do
  template ← try (TemplateRows.get_by_id id)
  delete_own user_id id template
  delete_each user_id ids

unfoldable pub delete_templates :
    (List Template → List Template) → ℕ → List ℕ → Exec (List Template)
unfolding delete_each
delete_templates by_label user_id ids = do
  active_user user_id
  delete_each user_id ids
  TemplateRows.get_by_user_id by_label user_id
