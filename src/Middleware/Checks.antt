-- ===== src/Middleware/Checks.antt =====
-- Requests on a concrete state, and the theorems about the middleware and the API keys there.
use hashira_be_railway_deplo.Base.{◌≡◌, ◌≢◌, refl, str, none, some, text_eq, arith}
use hashira_be_railway_deplo.Base.Hex.{hex_encode, hex_decode, cons_byte, hex_byte, hex_value}
use hashira_be_railway_deplo.Repositories.ApiKeys.{is_live_key, is_key_of, revoke}
use hashira_be_railway_deplo.Types.{ok}
use hashira_be_railway_deplo.World.{World}
use hashira_be_railway_deplo.ApiKeys.Service.{
  ValidatedApiKey, validated, validate_api_key, revoke_key,
}
use hashira_be_railway_deplo.ApiKeys.Service.Validation.{
  Validated, validate_api_key-Validated, validate_api_key-revoke_key,
}
use hashira_be_railway_deplo.Middleware.Access.{Request, auth_user, authenticate}
use hashira_be_railway_deplo.Middleware.Access.Admission.{Authenticated, authenticate-Authenticated}
use hashira_be_railway_deplo.Samples.Rows.{find_first}
use hashira_be_railway_deplo.Samples.Services.{demo, start, ann, ann_key}

abbrev get_events : Request
get_events = record {
  method = str "GET";
  original_url = str "/v1/events?page=1";
  session_cookie = some (str "cookie");
  api_key_header = none;
  param_org_id = none;
  user = none;
  api_key = none;
}

abbrev admitted : Request
admitted = record get_events { user = some (auth_user ann) }

authenticate-start : authenticate get_events start ≡ (ok admitted, start)
unfolding authenticate find_first
authenticate-start = refl

authenticate-Authenticated_example : Authenticated get_events admitted start × (start ≡ start)
authenticate-Authenticated_example =
    authenticate-Authenticated get_events admitted start start authenticate-start

abbrev after_validation : World
after_validation = (validate_api_key (str "hsk_1") start).1

validate_start : validate_api_key (str "hsk_1") start ≡ (ok (validated ann_key), after_validation)
unfolding validate_api_key find_first is_live_key text_eq hex_encode hex_decode cons_byte hex_byte
    hex_value
validate_start = refl

validate_api_key-Validated_example : Validated (str "hsk_1") (validated ann_key) start
validate_api_key-Validated_example =
    validate_api_key-Validated (str "hsk_1") (validated ann_key) start after_validation
      validate_start

-- The first key is revoked; the second one still works.
abbrev after_revocation : World
after_revocation = (revoke_key 80 10 start).1

revoke_start : revoke_key 80 10 start ≡ (ok tt, after_revocation)
unfolding revoke_key find_first is_key_of
revoke_start = refl

abbrev spare_key : ValidatedApiKey
spare_key = record (validated ann_key) { key_id = 81 }

validate_spare :
    validate_api_key (str "hsk_2") after_revocation
    ≡ (ok spare_key, (validate_api_key (str "hsk_2") after_revocation).1)
unfolding validate_api_key find_first is_live_key text_eq hex_encode hex_decode cons_byte hex_byte
    hex_value revoke_key is_key_of revoke
validate_spare = refl

validate_api_key-revoke_key_example : spare_key.key_id ≢ 80
unfolding validated
validate_api_key-revoke_key_example =
    validate_api_key-revoke_key 80 10 (str "hsk_2") spare_key start after_revocation
      after_revocation (validate_api_key (str "hsk_2") after_revocation).1
      (((λ e. absurd (omega arith)), tt), (tt, tt)) revoke_start refl validate_spare refl
