-- ===== src/Repositories/Users.antt =====
-- backend/internal/repositories/user.go
use orgfin_diploma.Prelude.{ℕ, not, ◌&&◌, Option, none, some, List, [], ◌∷◌, ◌==◌, if◌then◌else◌}
use orgfin_diploma.Models.{User}
use orgfin_diploma.Exec.{Exec, query, row_of}

-- WHERE u.id = i AND u.is_deleted = false
unfoldable pub find : ℕ → List User → Option User
find i [] = none
find i (u ∷ us) = if u.id == i && not u.is_deleted then some u else find i us

unfoldable pub get_by_id : ℕ → Exec User
get_by_id i = query (λ s. row_of (find i s.users))
