-- ===== src/Errors.antt =====
-- packages/shared/src/errors.ts: the catalogue of error codes.
pub mod Catalog
use vmcp.Base.{ℕ, Option, none, some, Text, codes, get_or}

pub data AlertSeverity : Type 0 where
  low medium high critical : AlertSeverity

pub data ErrorCode : Type 0 where
  e001 e002 e003 e004 e005 e006 e007 e008 e009 e010 e011 : ErrorCode
  e012 e013 e014 e015 e016 e017 e018 e019 e020 e021 : ErrorCode

-- `class` of the source is `class_name` here.
pub record ErrorDefinition : Type 0 where
  pub code : Text
  pub class_name : Text
  pub severity : AlertSeverity
  pub operator_action : Text
  pub docs_path : Text
  pub http_status : ℕ

unfoldable pub error_catalog : ErrorCode → ErrorDefinition
error_catalog e001 = record {
  code = codes "E001";
  class_name = codes "DISPATCH_TIMEOUT";
  severity = high;
  operator_action = codes "Check GitHub runner availability, possibly fallback tier.";
  docs_path = codes "/api/v1/docs/errors/E001";
  http_status = 504;
}
error_catalog e002 = record {
  code = codes "E002";
  class_name = codes "REIMPORT_FAILED";
  severity = medium;
  operator_action = codes "Inspect reimport_failure.log, check Godot version compatibility.";
  docs_path = codes "/api/v1/docs/errors/E002";
  http_status = 422;
}
error_catalog e003 = record {
  code = codes "E003";
  class_name = codes "VALIDATION_FAILED";
  severity = medium;
  operator_action = codes "Review validation report, fix scene errors.";
  docs_path = codes "/api/v1/docs/errors/E003";
  http_status = 422;
}
error_catalog e004 = record {
  code = codes "E004";
  class_name = codes "COMMIT_FAILED";
  severity = high;
  operator_action = codes "Investigate possible stale lock; manually reclaim lock if safe.";
  docs_path = codes "/api/v1/docs/errors/E004";
  http_status = 409;
}
error_catalog e005 = record {
  code = codes "E005";
  class_name = codes "LOCK_STALE_RECOVERED";
  severity = low;
  operator_action = codes "Automatic recovery; monitor for patterns.";
  docs_path = codes "/api/v1/docs/errors/E005";
  http_status = 200;
}
error_catalog e006 = record {
  code = codes "E006";
  class_name = codes "EXPORT_TEMPLATE_MISMATCH";
  severity = high;
  operator_action = codes "Update export templates to match Godot editor version.";
  docs_path = codes "/api/v1/docs/errors/E006";
  http_status = 422;
}
error_catalog e007 = record {
  code = codes "E007";
  class_name = codes "UID_DUPLICATE_AUTO_FIXED";
  severity = low;
  operator_action = codes "Review auto-fix log, verify no side-effects.";
  docs_path = codes "/api/v1/docs/errors/E007";
  http_status = 200;
}
error_catalog e008 = record {
  code = codes "E008";
  class_name = codes "UID_DUPLICATE_MANUAL";
  severity = medium;
  operator_action = codes "Manually resolve conflicting UIDs via dashboard.";
  docs_path = codes "/api/v1/docs/errors/E008";
  http_status = 409;
}
error_catalog e009 = record {
  code = codes "E009";
  class_name = codes "EXTENSION_EXEC_TIMEOUT";
  severity = medium;
  operator_action = codes "Check extension resource limits, possibly increase.";
  docs_path = codes "/api/v1/docs/errors/E009";
  http_status = 504;
}
error_catalog e010 = record {
  code = codes "E010";
  class_name = codes "PARITY_FAILURE";
  severity = high;
  operator_action = codes "Compare tier outputs, disable tier if necessary.";
  docs_path = codes "/api/v1/docs/errors/E010";
  http_status = 500;
}
error_catalog e011 = record {
  code = codes "E011";
  class_name = codes "DEP_FAILED";
  severity = medium;
  operator_action = codes "Blocked job depended on a failed generation; re-evaluate inputs.";
  docs_path = codes "/api/v1/docs/errors/E011";
  http_status = 422;
}
error_catalog e012 = record {
  code = codes "E012";
  class_name = codes "GODOT_EDITOR_LOCK";
  severity = medium;
  operator_action = codes "Close Godot editor holding project.godot.lock, then retry.";
  docs_path = codes "/api/v1/docs/errors/E012";
  http_status = 423;
}
error_catalog e013 = record {
  code = codes "E013";
  class_name = codes "FENCING_TOKEN_REJECTED";
  severity = high;
  operator_action = codes "Token is stale after reclaim/failover; re-acquire lock and redispatch.";
  docs_path = codes "/api/v1/docs/errors/E013";
  http_status = 403;
}
error_catalog e014 = record {
  code = codes "E014";
  class_name = codes "PATH_TRAVERSAL";
  severity = high;
  operator_action = codes "Reject request; audit caller token and inputs.";
  docs_path = codes "/api/v1/docs/errors/E014";
  http_status = 400;
}
error_catalog e015 = record {
  code = codes "E015";
  class_name = codes "TOKEN_REVOKED";
  severity = high;
  operator_action = codes "Client must obtain a new API token.";
  docs_path = codes "/api/v1/docs/errors/E015";
  http_status = 401;
}
error_catalog e016 = record {
  code = codes "E016";
  class_name = codes "EXTENSION_NETWORK_DENIED";
  severity = medium;
  operator_action = codes "Request admin network approval for the extension domains.";
  docs_path = codes "/api/v1/docs/errors/E016";
  http_status = 403;
}
error_catalog e017 = record {
  code = codes "E017";
  class_name = codes "EXTENSION_VERSION_INCOMPATIBLE";
  severity = medium;
  operator_action = codes "Use an extension compatible with the project Godot version.";
  docs_path = codes "/api/v1/docs/errors/E017";
  http_status = 422;
}
error_catalog e018 = record {
  code = codes "E018";
  class_name = codes "RATE_LIMITED";
  severity = low;
  operator_action = codes "Back off and retry after the rate-limit window.";
  docs_path = codes "/api/v1/docs/errors/E018";
  http_status = 429;
}
error_catalog e019 = record {
  code = codes "E019";
  class_name = codes "SCRIPT_OVERRIDE_REQUIRES_ADMIN";
  severity = medium;
  operator_action = codes "Override introduces executable script changes; requires admin scope.";
  docs_path = codes "/api/v1/docs/errors/E019";
  http_status = 403;
}
error_catalog e020 = record {
  code = codes "E020";
  class_name = codes "DEAD_LETTER";
  severity = high;
  operator_action = codes "Job failed 3 times; inspect dead-letter queue and retry or archive.";
  docs_path = codes "/api/v1/docs/errors/E020";
  http_status = 500;
}
error_catalog e021 = record {
  code = codes "E021";
  class_name = codes "INVALID_STATUS_TRANSITION";
  severity = medium;
  operator_action =
      codes
        "Requested job status is not allowed from the current state; check worker callback order and FSM.";
  docs_path = codes "/api/v1/docs/errors/E021";
  http_status = 409;
}

pub record ErrorPayload : Type 0 where
  pub code : Text
  pub class_name : Text
  pub severity : AlertSeverity
  pub message : Text
  pub operator_action : Text
  pub docs_url : Text

unfoldable pub error_payload : ErrorCode → Option Text → ErrorPayload
unfolding error_catalog
error_payload code detail =
    let def = error_catalog code in
    record {
      code = def.code;
      class_name = def.class_name;
      severity = def.severity;
      message = get_or detail def.class_name;
      operator_action = def.operator_action;
      docs_url = def.docs_path;
    }
