-- ===== src/Status/Roles.antt =====
-- packages/shared/src/job-status.ts: the ranks of the roles.
use vmcp.Base.{ℕ, ◌≡◌, ◌↔◌, ◌⊎◌, true, Bool, arith, leb, ◌==◌}

pub data Role : Type 0 where
  callback viewer operator admin : Role

abbrev pub role_rank : Role → ℕ
role_rank callback = 0
role_rank viewer = 1
role_rank operator = 2
role_rank admin = 3

unfoldable pub has_min_role : Role → Role → Bool
has_min_role user_role required = leb (role_rank required) (role_rank user_role)

-- Roles are texts in the source, and `===` holds of a role and itself only: ranks tell them apart.
unfoldable pub has_exact_role : Role → Role → Bool
has_exact_role user_role required = role_rank user_role == role_rank required

-- Roles are ranked by a total order in which two roles that admit each other are the same, an exact
-- match is a match both ways, and a callback principal passes no check for another role.
pub has_min_role_order :
    (a b c : Role)
    → ((has_min_role a b ≡ true) ⊎ (has_min_role b a ≡ true))
      × (has_min_role a b ≡ true → has_min_role b c ≡ true → has_min_role a c ≡ true)
      × ((has_exact_role a b ≡ true) ↔ ((has_min_role a b ≡ true) × (has_min_role b a ≡ true)))
      × ((has_exact_role a b ≡ true) ↔ (a ≡ b))
      × (has_min_role callback b ≡ true → b ≡ callback)
unfolding has_min_role has_exact_role
has_min_role_order a b c = (
  ground arith,
  λ h k. ground arith,
  (λ h. ground arith, λ h. ground arith),
  (λ h. ground arith, λ h. ground arith),
  λ h. ground arith,
)
