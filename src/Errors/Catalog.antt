-- ===== src/Errors/Catalog.antt =====
-- The codes and pages of packages/shared/src/errors.ts.
use vmcp.Base.{◌≤◌, ◌<◌, ◌≡◌, refl, ◌++◌, codes, arith}
use vmcp.Errors.{ErrorCode, e001, error_catalog}

-- Every code has its own entry: the code of an entry tells which it is, its page is the documentation
-- path with the code behind it, and its HTTP status is one of success, client or server error.
pub error_catalog_wf :
    (a b : ErrorCode)
    → ((error_catalog a).code ≡ (error_catalog b).code → a ≡ b)
      × ((error_catalog a).docs_path ≡ codes "/api/v1/docs/errors/" ++ (error_catalog a).code)
      × (200 ≤ (error_catalog a).http_status)
      × ((error_catalog a).http_status < 600)
unfolding error_catalog
error_catalog_wf e001 b = (λ h. ground arith, refl, omega arith, omega arith)
error_catalog_wf _ b = (λ h. ground arith, refl, omega arith, omega arith)
