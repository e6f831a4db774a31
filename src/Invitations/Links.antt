-- ===== src/Invitations/Links.antt =====
-- The link of an invitation: `BuildInvitationAcceptanceURL` of
-- src/backend/internal/repository/reliability.go. Parsing and printing of URLs are the library's.
use Prim.Native.String.{String, compare}
use roomies.Base.{
  ℕ, Bool, true, false, not, ◌&&◌, ◌||◌, Option, none, some, Ordering, if◌then◌else◌,
}
use roomies.Houses.{is_empty}

pub data Scheme : Type 0 where
  http https other_scheme : Scheme

-- The fields of `url.URL` that the code reads or writes.
pub record Url : Type 0 where
  pub scheme : Scheme
  pub host : String
  pub has_user : Bool
  pub path : String
  pub raw_path : String
  pub raw_query : String
  pub fragment : String

abbrev pub is_web : Scheme → Bool
is_web http = true
is_web https = true
is_web other_scheme = false

abbrev pub same_text : String → String → Bool
same_text s t = elim (compare s t) [ Ordering.eq ↦ true | _ ↦ false ]

abbrev pub is_origin : Url → Bool
is_origin base =
    is_web base.scheme
    && not (is_empty base.host)
    && not base.has_user
    && (is_empty base.path || same_text base.path "/")
    && is_empty base.raw_query
    && is_empty base.fragment

-- `query` prints the one query parameter `token`.
unfoldable pub build_invitation_acceptance_url : (ℕ → String) → Option Url → ℕ → Option Url
build_invitation_acceptance_url query none token = none
build_invitation_acceptance_url query (some base) token =
    if is_origin base
    then some (record base { path = "/accept-invitation"; raw_path = ""; raw_query = query token })
    else none

-- The URL library and the cipher: `url.Values.Encode`, `URL.String`, and `Encrypt` of an invitation, a
-- house, a job and a URL, where the repository has a cipher.
pub record Link : Type 0 where
  pub query : ℕ → String
  pub render : Url → String
  pub encrypt : Option (ℕ → ℕ → ℕ → String → Option String)

-- What `CreateInvitation` stores with its message, for the job that will send it.
unfoldable pub delivery : Link → Option Url → ℕ → ℕ → ℕ → Option (ℕ → Option String)
unfolding build_invitation_acceptance_url
delivery link base id house token = elim link.encrypt [
  | none ↦ none
  | some encrypt ↦ some (λ job. elim (build_invitation_acceptance_url link.query base token) [
    | none ↦ none
    | some url ↦ encrypt id house job (link.render url)
  ])
]
