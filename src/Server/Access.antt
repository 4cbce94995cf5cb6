-- ===== src/Server/Access.antt =====
-- internal/subresourceapi/server.go and sar.go: who calls, and whether the caller may get the parent.
use kubewaf.Prelude.{
  Bool, true, false, ◌||◌, ◌&&◌, not, Option, none, some, List, [], ◌∷◌, if◌then◌else◌, is_nil,
}
use kubewaf.Prelude.Bytes.{Bytes, codes, mem, trim_space}
use kubewaf.Prelude.Result.{Result, ok, err}
use kubewaf.Server.Errors.{MappedError}
use kubewaf.Server.Routes.{ParentKind, sec_rule, rule_set, waf}

pub data AuthMode : Type 0 where
  auth_insecure_dev : AuthMode
  auth_request_header : AuthMode
  other_mode : AuthMode

pub record Certificate : Type 0 where
  pub common_name : Bytes
  pub dns_names : List Bytes

-- The part of the request that the authentication reads. No certificates is also what a request
-- without TLS has.
pub record Caller : Type 0 where
  pub peer_certificates : List Certificate
  -- the headers `X-Remote-User` and `X-Remote-Group`
  pub remote_user : Bytes
  pub remote_groups : List Bytes

pub record AuthConfig : Type 0 where
  pub auth : AuthMode
  pub dev_user : Bytes
  pub require_peer_cert : Option Bool
  pub request_header_allowed_names : List Bytes

pub record Identity : Type 0 where
  pub user : Bytes
  pub groups : List Bytes

unfoldable pub trimmed_names : List Bytes → List Bytes
unfolding trim_space
trimmed_names [] = []
trimmed_names (n ∷ ns) =
    let rest = trimmed_names ns in if is_nil (trim_space n) then rest else trim_space n ∷ rest

any_mem : List Bytes → List Bytes → Bool
unfolding mem
any_mem [] set = false
any_mem (n ∷ ns) set = mem n set || any_mem ns set

-- Its common name or one of its DNS names is in the set.
unfoldable pub is_named : Certificate → List Bytes → Bool
unfolding mem any_mem
is_named cert set = mem cert.common_name set || any_mem cert.dns_names set

unfoldable pub any_named : List Certificate → List Bytes → Bool
unfolding is_named
any_named [] set = false
any_named (c ∷ cs) set = is_named c set || any_named cs set

-- `peerCertNameAllowed` behind its check for TLS
unfoldable pub peer_cert_name_allowed : List Certificate → List Bytes → Bool
unfolding trimmed_names any_named
peer_cert_name_allowed certs allowed =
    let set = trimmed_names allowed in if is_nil set then true else any_named certs set

unauthorized : Bytes → MappedError
unauthorized why = record { http_status = 401; reason = "Unauthorized"; message = why }

abbrev pub requires_peer : Option Bool → Bool
requires_peer none = true
requires_peer (some b) = b

-- The headers, once the peer may set them.
from_headers : Caller → Result MappedError Identity
unfolding unauthorized
from_headers c =
    if is_nil c.remote_user
    then err (unauthorized (codes "missing X-Remote-User"))
    else ok (record { user = c.remote_user; groups = c.remote_groups })

unfoldable pub from_request_header : AuthConfig → Caller → Result MappedError Identity
unfolding unauthorized from_headers peer_cert_name_allowed
from_request_header cfg c =
    if requires_peer cfg.require_peer_cert && is_nil c.peer_certificates
    then err (unauthorized (codes "client certificate required"))
    else if requires_peer cfg.require_peer_cert
        && not (is_nil cfg.request_header_allowed_names)
        && not (peer_cert_name_allowed c.peer_certificates cfg.request_header_allowed_names)
    then err (unauthorized (codes "client certificate name not allowed"))
    else from_headers c

-- `authenticate`
unfoldable pub authenticate : AuthConfig → Caller → Result MappedError Identity
unfolding from_request_header
authenticate cfg c = elim cfg.auth [
  | auth_request_header ↦ from_request_header cfg c
  | _ ↦ ok (record { user = cfg.dev_user; groups = [] })
]

-- `SARAuthorizer`: no error means that the caller may.
abbrev pub SarAuthorizer : Type 0
SarAuthorizer = Identity → ParentKind → Bytes → Bytes → Option MappedError

forbidden : Bytes → Option MappedError
forbidden why = some (record { http_status = 403; reason = "Forbidden"; message = why })

-- `AllowAllSAR` and `DenyAllSAR`
unfoldable pub allow_all_sar : SarAuthorizer
allow_all_sar who kind ns name = none

unfoldable pub deny_all_sar : SarAuthorizer
unfolding forbidden
deny_all_sar who kind ns name = forbidden (codes "authorization not configured")

-- `parentStorageGVR`: the group and the resource.
unfoldable pub parent_storage_gvr : ParentKind → Bytes × Bytes
parent_storage_gvr sec_rule = (codes "seclang.kubewaf.io", codes "secrules")
parent_storage_gvr rule_set = (codes "waf.kubewaf.io", codes "rulesets")
parent_storage_gvr waf = (codes "waf.kubewaf.io", codes "wafs")

-- A `SubjectAccessReview`, and the answer of the API server: allowed or not, and a reason.
pub record Review : Type 0 where
  pub who : Identity
  pub namespace : Bytes
  pub verb : Bytes
  pub group : Bytes
  pub resource : Bytes
  pub name : Bytes

abbrev pub Reviewer : Type 0
Reviewer = Review → Option (Bool × Bytes)

reviewed : Option (Bool × Bytes) → Option MappedError
unfolding forbidden
reviewed none = some (record {
  http_status = 503;
  reason = "InternalError";
  message = codes "authorization check failed";
})
reviewed (some (true, why)) = none
reviewed (some (false, why)) =
    forbidden (if is_nil why then codes "not authorized to get parent object" else why)

-- `SubjectAccessReviewSAR.CanGetParent` with a client
unfoldable pub subject_access_review_sar : Reviewer → SarAuthorizer
unfolding parent_storage_gvr reviewed
subject_access_review_sar review who kind ns name = reviewed (
    review (record {
      who = who;
      namespace = ns;
      verb = codes "get";
      group = (parent_storage_gvr kind).0;
      resource = (parent_storage_gvr kind).1;
      name = name;
    }))

-- The authorizer that `NewServer` takes.
unfoldable pub sar_or_default : AuthMode → Option SarAuthorizer → SarAuthorizer
unfolding allow_all_sar deny_all_sar
sar_or_default mode (some sar) = sar
sar_or_default auth_request_header none = deny_all_sar
sar_or_default auth_insecure_dev none = allow_all_sar
sar_or_default other_mode none = allow_all_sar
