-- ===== src/Repositories/Templates.antt =====
-- backend/internal/repositories/transaction_template.go
use orgfin_diploma.Prelude.{
  ℕ, ◌+◌, Option, none, some, List, [], ◌∷◌, ◌==◌, if◌then◌else◌, keep, not,
}
use orgfin_diploma.Models.{Template}
use orgfin_diploma.Exec.{Exec, ok, query, statement, row_of}

unfoldable pub find : ℕ → List Template → Option Template
find i [] = none
find i (t ∷ ts) = if t.id == i then some t else find i ts

unfoldable pub get_by_id : ℕ → Exec Template
get_by_id i = query (λ s. row_of (find i s.templates))

-- WHERE t.user_id = u ORDER BY t.label ASC: the order of labels is the collation of the database,
-- so the sort by label is an argument.
unfoldable pub get_by_user_id : (List Template → List Template) → ℕ → Exec (List Template)
get_by_user_id by_label u = query (λ s. ok (by_label (keep (λ t. t.user_id == u) s.templates)))

unfoldable pub create : Template → Exec (Unit {0})
create t = statement λ s. record s {
  templates = record t { id = s.next_template_id } ∷ s.templates;
  next_template_id = s.next_template_id + 1;
}

unfoldable pub change : Template → List Template → List Template
change u [] = []
change u (t ∷ ts) =
    (if t.id == u.id
      then record t {
        label = u.label;
        category_id = u.category_id;
        target_account_id = u.target_account_id;
      }
      else t)
    ∷ change u ts

unfoldable pub update : Template → Exec (Unit {0})
update u = statement (λ s. record s { templates = change u s.templates })

-- DELETE FROM transaction_templates WHERE id = i
unfoldable pub delete : ℕ → Exec (Unit {0})
delete i = statement (λ s. record s { templates = keep (λ t. not (t.id == i)) s.templates })
