-- ===== src/Events/Scope.antt =====
-- src/controllers/event/event-query.controller.ts: which events a caller may see, and its handlers.
use mathlib.Core.List.{reverse}
use hashira_be_railway_deplo.Base.{
  ℕ, Option, none, some, Bool, false, not, List, [], ◌∷◌, map, keep, Text, str, text_eq, ◌||◌, ltb,
  from_option, is_some, if◌then◌else◌,
}
use hashira_be_railway_deplo.Base.Strings.{truthy, trim, split, starts_with, parse_natural}
use hashira_be_railway_deplo.Types.{
  ApiKeyPermission, EventStatus, is_member, has_permission, auth_error, forbidden_error,
  validation_failed, unauthorized, no_org, insufficient_permissions, validation_error,
}
use hashira_be_railway_deplo.Entities.{Uuid, Date, User}
use hashira_be_railway_deplo.Platform.{Platform}
use hashira_be_railway_deplo.World.Monad.{App, pure, throw, throw_if, or_throw, ◌>>=◌, ◌>>◌}
use hashira_be_railway_deplo.Repositories.Events.{Sort, asc, desc, ListEventsInput}
use hashira_be_railway_deplo.Repositories.Users.{find_user_by_email_and_org}
use hashira_be_railway_deplo.ApiKeys.Service.{ValidatedApiKey}
use hashira_be_railway_deplo.Middleware.Access.{AuthUser, Request}
use hashira_be_railway_deplo.Events.Query.{
  EventPage, EventDetail, VerificationData, list, get_by_id, get_verification,
}

-- The query string of a listing.
pub record ListQuery : Type 0 where
  pub page : Option Text
  pub page_size : Option Text
  pub sort : Option Text
  pub status : Option Text
  pub from : Option Text
  pub to : Option Text
  pub workflow_id : Option Text
  pub model_id : Option Text
  pub email : Option Text

pub record ResolvedScope : Type 0 where
  pub org_id : Uuid
  pub user_id_filter : Option Uuid
  pub email_filter : Option Text

unfoldable pub member_filter : AuthUser → Option Uuid
member_filter user = if is_member user.role then some user.user_id else none

-- Of a request that carries no session: the key's organisation.
unfoldable pub key_scope : Option ValidatedApiKey → ApiKeyPermission → App ResolvedScope
key_scope none required = throw (auth_error unauthorized)
key_scope (some key) required = do
  throw_if (not (has_permission required key.permissions))
      (forbidden_error insufficient_permissions)
  pure (record { org_id = key.org_id; user_id_filter = none; email_filter = none })

unfoldable pub user_list_scope : AuthUser → Option Text → App ResolvedScope
unfolding member_filter
user_list_scope user email = do
  org_id ← or_throw user.org_id (forbidden_error no_org)
  pure (record {
    org_id = org_id;
    user_id_filter = member_filter user;
    email_filter = if is_member user.role then none else truthy email;
  })

unfoldable pub resolve_list_scope : Request → Option Text → App ResolvedScope
unfolding key_scope user_list_scope
resolve_list_scope req email = elim req.user [
  | none ↦ key_scope req.api_key ApiKeyPermission.events_read
  | some user ↦ user_list_scope user email
]

unfoldable pub user_detail_scope : AuthUser → App ResolvedScope
unfolding member_filter
user_detail_scope user = do
  org_id ← or_throw user.org_id (forbidden_error no_org)
  pure (record { org_id = org_id; user_id_filter = member_filter user; email_filter = none })

unfoldable pub resolve_detail_scope : Request → ApiKeyPermission → App ResolvedScope
unfolding key_scope user_detail_scope
resolve_detail_scope req required = elim req.user [
  | none ↦ key_scope req.api_key required
  | some user ↦ user_detail_scope user
]

abbrev pub page_size_max : ℕ
page_size_max = 100

-- VALID_PUBLIC_STATUS with PUBLIC_TO_INTERNAL_STATUS
unfoldable pub public_to_internal_status : Text → Option EventStatus
public_to_internal_status s =
    if text_eq s (str "processing")
    then some EventStatus.processing
    else if text_eq s (str "anchoring")
    then some EventStatus.anchoring
    else if text_eq s (str "anchored")
    then some EventStatus.anchored
    else if text_eq s (str "failed")
    then some EventStatus.anchor_failed
    else none

unfoldable pub statuses_of : List Text → Option (List EventStatus)
unfolding public_to_internal_status
statuses_of [] = some []
statuses_of (v ∷ vs) = elim (public_to_internal_status v) [
  | none ↦ none
  | some s ↦ elim (statuses_of vs) [ none ↦ none | some ss ↦ some (s ∷ ss) ]
]

-- The trimmed values between commas that are not empty; no parameter is the empty filter.
unfoldable pub parse_statuses : Option Text → Option (List EventStatus)
unfolding statuses_of split trim
parse_statuses none = some []
parse_statuses (some param) =
    statuses_of (keep (λ v. is_some (truthy (some v))) (map trim (split b',' param)))

unfoldable pub is_valid_sort : Text → Bool
is_valid_sort s = text_eq s (str "created_at:asc") || text_eq s (str "created_at:desc")

-- `sortParam.endsWith('asc')`
unfoldable pub sort_of : Text → Sort
unfolding starts_with
sort_of s = if starts_with (reverse (str "asc")) (reverse s) then asc else desc

unfoldable pub empty_page : ℕ → ℕ → EventPage
empty_page page page_size = record {
  data_rows = [];
  pagination = record { page = page; page_size = page_size; total = 0; has_next = false };
}

module _ ⦃p : Platform⦄ where
  -- An absent or empty parameter is no bound; a text that is no date is an error.
  unfoldable pub parse_bound : Option Text → App (Option Date)
  parse_bound none = pure none
  parse_bound (some text) = do
    date ← or_throw (p.parse_date text) (validation_failed validation_error)
    pure (some date)

  -- `resolveUserId` and the listing: an address of nobody in the organisation gives an empty page.
  unfoldable pub list_of_email : Option User → ListEventsInput → App EventPage
  unfolding list empty_page
  list_of_email none input = pure (empty_page input.page input.page_size)
  list_of_email (some user) input = list (record input { user_id = some user.user_id })

  unfoldable pub list_in_scope : ResolvedScope → Option Text → ListEventsInput → App EventPage
  unfolding list list_of_email find_user_by_email_and_org
  list_in_scope scope none input = list input
  list_in_scope scope (some email) input = do
    found ← find_user_by_email_and_org email scope.org_id
    list_of_email found input

  unfoldable pub list_events_handler : Request → ListQuery → App EventPage
  unfolding resolve_list_scope parse_natural is_valid_sort parse_statuses parse_bound sort_of
      list_in_scope
  list_events_handler req query = do
    scope ← resolve_list_scope req query.email
    page ←
        or_throw (parse_natural (from_option (str "1") (λ s. s) query.page))
          (validation_failed validation_error)
    throw_if (ltb page 1) (validation_failed validation_error)
    page_size ←
        or_throw (parse_natural (from_option (str "20") (λ s. s) query.page_size))
          (validation_failed validation_error)
    throw_if (ltb page_size 1 || ltb page_size_max page_size) (validation_failed validation_error)
    let sort_param = from_option (str "created_at:desc") (λ s. s) query.sort
    throw_if (not (is_valid_sort sort_param)) (validation_failed validation_error)
    statuses ← or_throw (parse_statuses query.status) (validation_failed validation_error)
    from ← parse_bound (truthy query.from)
    to ← parse_bound (truthy query.to)
    list_in_scope scope scope.email_filter (record {
      org_id = scope.org_id;
      user_id = scope.user_id_filter;
      page = page;
      page_size = page_size;
      sort = sort_of sort_param;
      statuses = statuses;
      from = from;
      to = to;
      workflow_id = query.workflow_id;
      model_id = query.model_id;
    })

  unfoldable pub get_event_handler : Request → Uuid → App EventDetail
  unfolding resolve_detail_scope get_by_id
  get_event_handler req event_id = do
    scope ← resolve_detail_scope req ApiKeyPermission.events_read
    get_by_id event_id scope.org_id scope.user_id_filter

  unfoldable pub get_verification_handler : Request → Uuid → App VerificationData
  unfolding resolve_detail_scope get_verification
  get_verification_handler req event_id = do
    scope ← resolve_detail_scope req ApiKeyPermission.verification_read
    get_verification event_id scope.org_id scope.user_id_filter
