-- ===== src/Examples/Statuses.antt =====
-- The transition table, the roles and the tokens of packages/shared/src at concrete inputs.
use vmcp.Base.{◌≡◌, refl, some, List, [], ◌∷◌, Text, codes, to_lower, decimal}
use vmcp.Status.{
  JobStatus, queued, dispatching, staging, validating, validation_report, committing,
  post_commit_verify, completed, dep_failed, can_transition_job_status,
}
use vmcp.Status.Lifecycle.{Trace, done, move}
use vmcp.Fencing.{uuid_pattern, format_fencing_token, parse_fencing_token}
use vmcp.Fencing.RoundTrip.{IsUuid, fits_all-Fits, parse-format_fencing_token}

stay : Trace completed (completed ∷ []) completed
unfolding can_transition_job_status
stay = move refl done

stay_failed : Trace dep_failed (dep_failed ∷ []) dep_failed
unfolding can_transition_job_status
stay_failed = move refl done

abbrev whole_run : List JobStatus
whole_run =
    dispatching ∷ staging ∷ validating ∷ validation_report ∷ committing ∷ post_commit_verify
    ∷ completed ∷ []

completing : Trace queued whole_run completed
unfolding can_transition_job_status
completing = move refl (move refl (move refl (move refl (move refl (move refl (move refl done))))))

abbrev pub node_id : Text
node_id = codes "0a1B2c3d-1111-4222-8333-444455556666"

abbrev pub lower_id : Text
lower_id = codes "0a1b2c3d-1111-4222-8333-444455556666"

pub node_id-IsUuid : IsUuid node_id
node_id-IsUuid = fits_all-Fits uuid_pattern node_id refl

pub lower_id-IsUuid : IsUuid lower_id
lower_id-IsUuid = fits_all-Fits uuid_pattern lower_id refl

parse-format_fencing_token_example :
    parse_fencing_token (format_fencing_token node_id 42)
    ≡ some (record {
      instance_id = to_lower node_id;
      counter = 42;
      raw = format_fencing_token node_id 42;
    })
parse-format_fencing_token_example = parse-format_fencing_token node_id 42 node_id-IsUuid

token_test : format_fencing_token (codes "ab") 1203 ≡ codes "ab:1203"
unfolding format_fencing_token decimal
token_test = refl
