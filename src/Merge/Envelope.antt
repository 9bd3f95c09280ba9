-- ===== src/Merge/Envelope.antt =====
-- services/merge-outbox-dispatch.ts: metaString, resolveMergeServiceToken and
-- buildMergeApplyDispatchEnvelope. Metadata are an object's fields that hold texts.
use vmcp.Base.{
  Bool, not, ◌&&◌, ◌||◌, Option, none, some, is_some, List, [], ◌∷◌, ◌++◌, Text, codes, text_eq,
  ◌≡◌, refl, ◌∙◌, Bool-cases, inl, inr, trim, to_lower, includes_text, if◌then◌else◌,
}
use vmcp.Scene.Attrs.{Attrs, attr}
use vmcp.Scene.Patch.{TscnPatch}
use vmcp.Merge.Files.{Fault}
use vmcp.Merge.Run.{
  WorkerEnv, Tables, Secrets, KeyPair, Run, ◌>>=◌, ◌>>◌, succeed, raise, call, calling,
  bind_attempt, Attempt, success, raised, provision_call, jwe_call,
}

-- The column `patch`: an object, a text or anything else.
pub data RawPatch : Type 0 where
  parsed : TscnPatch → RawPatch
  unparsed : Text → RawPatch
  nothing : RawPatch

pub record PendingRow : Type 0 where
  pub id : Text
  pub override_id : Text
  pub project_id : Text
  pub path : Text
  pub project_root : Option Text
  pub patch : RawPatch
  pub metadata : Attrs

-- An `Error` with a message alone.
abbrev pub plain_fault : Text → Fault
plain_fault message = record { message = message; status_code = none; code = none }

non_blank : Option Text → Option Text
non_blank none = none
non_blank (some v) = if text_eq (trim v) [] then none else some (trim v)

or_else : Option Text → Option Text → Option Text
or_else none b = b
or_else (some a) b = some a

-- metaString
pub meta_string : Attrs → List Text → Option Text
unfolding non_blank or_else
meta_string meta [] = none
meta_string meta (k ∷ keys) = or_else (non_blank (attr k meta)) (meta_string meta keys)

-- resolveMergeServiceToken
pub resolve_merge_service_token : WorkerEnv → Text
resolve_merge_service_token e =
    if text_eq (trim e.service_token) [] then trim e.sandbox_token else trim e.service_token

-- `replace(/\/$/, '')`
pub strip_last_slash : Text → Text
strip_last_slash [] = []
strip_last_slash (c ∷ []) = if text_eq (c ∷ []) (codes "/") then [] else c ∷ []
strip_last_slash (c ∷ d ∷ s) = c ∷ strip_last_slash (d ∷ s)

-- `/BEGIN (RSA |OPENSSH |EC )?PRIVATE KEY/i`
pub has_private_key : Text → Bool
has_private_key v =
    includes_text (codes "begin private key") (to_lower v)
    || includes_text (codes "begin rsa private key") (to_lower v)
    || includes_text (codes "begin openssh private key") (to_lower v)
    || includes_text (codes "begin ec private key") (to_lower v)

abbrev pub leaks : Text × Text → Bool
leaks (k, v) = not (text_eq k (codes "secretJwe")) && has_private_key v

-- The name of the first input that leaks.
unfoldable pub first_leak : Attrs → Option Text
first_leak [] = none
first_leak ((k, v) ∷ inputs) = if leaks (k, v) then some k else first_leak inputs

pub record Envelope : Type 0 where
  pub workflow_inputs : Attrs
  pub target_host : Option Text
  pub has_ssh_private_key : Bool

abbrev with_key : KeyPair → Secrets → Secrets
with_key key s = record s {
  ssh_private_key = some key.private_key_pem;
  ssh_key_id = some key.key_id;
}

provisioned : KeyPair → Secrets → Option Text → Run Secrets
provisioned key s none = succeed (with_key key s)
provisioned key s (some detail) =
    raise (plain_fault (codes "merge-apply SSH provision failed: " ++ detail))

provision : Secrets → Run Secrets
unfolding provisioned
provision s e = (call provision_call (λ t. t) >> provisioned e.key_pair s e.provision_refusal) e

-- A key is provisioned where both the host and the address are given.
add_key : Option Text → Option Text → Secrets → Run Secrets
unfolding provision
add_key (some url) (some host) s = provision s
add_key url host s = succeed s

abbrev inputs_of : Text → PendingRow → Text → Text → Text → Attrs
inputs_of jwe row root url key =
    (codes "secretJwe", jwe)
    ∷ (codes "outboxId", row.id)
    ∷ (codes "projectId", row.project_id)
    ∷ (codes "path", row.path)
    ∷ (codes "projectRoot", root)
    ∷ (codes "patchGetUrl", url)
    ∷ (codes "s3Key", key)
    ∷ []

guard_inputs : Option Text → Attrs → Secrets → Run Envelope
guard_inputs (some k) inputs s =
    raise (plain_fault (codes "refusing to put private key material in workflow input " ++ k))
guard_inputs none inputs s = succeed (record {
  workflow_inputs = inputs;
  target_host = s.target_host;
  has_ssh_private_key = is_some s.ssh_private_key;
})

seal : PendingRow → Text → Text → Text → Secrets → Run Envelope
unfolding guard_inputs first_leak
seal row root url key s e =
    let inputs = inputs_of (e.jwe s) row root url key in
    (call jwe_call (λ t. t) >> guard_inputs (first_leak inputs) inputs s) e

abbrev secrets_of : WorkerEnv → PendingRow → Text → Text → Secrets
secrets_of e row root url = record {
  callback_token = resolve_merge_service_token e;
  target_project_root = root;
  target_host = meta_string row.metadata (codes "targetHost" ∷ codes "target_host" ∷ []);
  outbox_id = row.id;
  rel_path = row.path;
  pgos_base_url = strip_last_slash e.public_base_url;
  patch_get_url = url;
  ssh_private_key = none;
  ssh_key_id = none;
}

-- buildMergeApplyDispatchEnvelope
unfoldable pub build_envelope : PendingRow → Text → Text → Text → Run Envelope
unfolding add_key seal strip_last_slash resolve_merge_service_token meta_string
build_envelope row root url key e =
    let s = secrets_of e row root url in
    let provision_url =
      meta_string row.metadata (codes "targetProvisionUrl" ∷ codes "target_provision_url" ∷ []) in
    if text_eq s.callback_token []
    then raise
        (plain_fault (
          codes
            "PGOS_SERVICE_TOKEN (or SANDBOX_INTERNAL_TOKEN) required for remote merge-apply JWE"))
        e
    else (do s' ← add_key provision_url s.target_host s; seal row root url key s') e

calling-same : (o : Option Fault) (t : Tables) → (calling o (λ s. s) t).1 ≡ t
calling-same none t = refl
calling-same (some fault) t = refl

bind-same :
    {A B : Type 0} (f : A → Run B) (r : Attempt A × Tables) (e : WorkerEnv) (t : Tables)
    → r.1 ≡ t
    → ((a : A) (s : Tables) → (f a e s).1 ≡ s)
    → (bind_attempt f r.0 e r.1).1 ≡ t
bind-same f (success a, s) e t h k = k a s ∙ h
bind-same f (raised fault, s) e t h k = h

guard_inputs-same :
    (o : Option Text) (inputs : Attrs) (s : Secrets) (e : WorkerEnv) (t : Tables)
    → (guard_inputs o inputs s e t).1 ≡ t
unfolding guard_inputs
guard_inputs-same none inputs s e t = refl
guard_inputs-same (some k) inputs s e t = refl

seal-same :
    (row : PendingRow) (root url key : Text) (s : Secrets) (e : WorkerEnv) (t : Tables)
    → (seal row root url key s e t).1 ≡ t
unfolding seal
seal-same row root url key s e t =
    bind-same _ (call jwe_call (λ t. t) e t) e t (calling-same (e.fails jwe_call) t)
      (λ u r. guard_inputs-same _ _ s e r)

provisioned-same :
    (key : KeyPair) (s : Secrets) (o : Option Text) (e : WorkerEnv) (t : Tables)
    → (provisioned key s o e t).1 ≡ t
unfolding provisioned
provisioned-same key s none e t = refl
provisioned-same key s (some detail) e t = refl

add_key-same :
    (url host : Option Text) (s : Secrets) (e : WorkerEnv) (t : Tables)
    → (add_key url host s e t).1 ≡ t
unfolding add_key provision
add_key-same none host s e t = refl
add_key-same (some url) none s e t = refl
add_key-same (some url) (some host) s e t =
    bind-same _ (call provision_call (λ t. t) e t) e t (calling-same (e.fails provision_call) t)
      (λ u r. provisioned-same e.key_pair s e.provision_refusal e r)

-- Building an envelope writes no table.
pub build_envelope-same :
    (row : PendingRow) (root url key : Text) (e : WorkerEnv) (t : Tables)
    → (build_envelope row root url key e t).1 ≡ t
unfolding build_envelope
build_envelope-same row root url key e t =
    elim (Bool-cases (text_eq (resolve_merge_service_token e) [])) [
      | inl b ↦ rw b refl
      | inr b ↦ rw b (
          bind-same (seal row root url key) (add_key _ _ _ e t) e t (add_key-same _ _ _ e t)
            (λ s r. seal-same row root url key s e r))
    ]
