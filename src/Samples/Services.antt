-- ===== src/Samples/Services.antt =====
-- Stand-ins for what the program calls: a hash that writes hexadecimal, passwords kept as they are.
use hashira_be_railway_deplo.Base.{◌+◌, [], ◌∷◌, none, some, str, text_eq, true, false}
use hashira_be_railway_deplo.Base.Hex.{hex_encode}
use hashira_be_railway_deplo.Base.Strings.{includes}
use hashira_be_railway_deplo.Types.{
  ok, OrgStatus, SubscriptionStatus, UserRole, UserStatus, InvitationStatus, ApiKeyStatus,
  ApiKeyPermission, EventStatus,
}
use hashira_be_railway_deplo.Entities.{
  Organisation, User, RefreshToken, Invitation, ApiKey, OtpToken, Event,
}
use hashira_be_railway_deplo.Platform.{Platform}
use hashira_be_railway_deplo.World.{World}
use hashira_be_railway_deplo.Samples.Rows.{first_row}

instance abbrev pub demo : Platform
demo = record {
  query = first_row;
  uuid = λ n. 100 + n;
  sha256 = hex_encode;
  random_int = λ n lo hi. str "654321";
  random_token = λ n. b't' ∷ n ∷ [];
  bcrypt_hash = λ n password. password;
  bcrypt_compare = text_eq;
  jwt_sign = λ payload now. payload.email;
  jwt_verify = λ token now.
      some (record { user_id = 1; org_id = some 10; role = UserRole.member; email = token });
  google_verify = λ token now. some (record { sub = token; email = token; email_verified = true });
  totp_secret = λ n. str "JBSWY3DP";
  totp_uri = λ label secret. label;
  qr_code = λ uri. uri;
  totp_verify = λ code secret now. text_eq code secret;
  sha256_bytes = λ s. s;
  random_iv = λ n. n ∷ [];
  gcm_seal = λ key iv text. (7 ∷ [], text);
  gcm_open = λ key iv tag sealed. some sealed;
  base64_encode = λ bytes. bytes;
  base64_decode = λ text. text;
  totp_encryption_key = none;
  event_encryption_key = some (str "0123456789abcdef0123456789abcdef");
  ses_send = λ n address. none;
  uuid_text = λ id. b'u' ∷ id ∷ [];
  iso_string = λ ms. b'@' ∷ ms ∷ [];
  parse_date = λ text. none;
  write_contract = λ n hash id. ok (str "0xfeed");
  wait_for_receipt = λ n tx depth. ok 42;
  chain_id = 84532;
  confirmation_depth = 3;
  anchor_max_retries = none;
  is_email = includes (str "@");
  is_datetime = λ s. true;
  stripe_checkout = λ n email org_id. ok (some (str "https://stripe"));
  frontend_url = none;
  skip_ses = false;
  production = false;
}

abbrev pub ann : User
ann = record {
  user_id = 1;
  org_id = some 10;
  email = str "Ann@x.io";
  password_hash = some (str "secret12");
  google_sub = none;
  role = UserRole.member;
  status = UserStatus.active;
  mfa_enabled = false;
  totp_secret = none;
  totp_secret_pending = none;
  invited_by = none;
  created_at = 5;
}

abbrev pub acme : Organisation
acme = record {
  org_id = 10;
  name = str "Acme";
  status = OrgStatus.active;
  user_limit = 2;
  stripe_customer_id = none;
  stripe_subscription_id = none;
  subscription_status = SubscriptionStatus.active;
  created_at = 1;
  updated_at = 1;
}

abbrev pub ann_token : RefreshToken
ann_token = record {
  id = 50;
  token_hash = hex_encode (str "r1");
  user_id = 1;
  expires_at = 9000;
  used = false;
  created_at = 2;
}

-- The key hsk_1, and the code 654321 sent to Ann@x.io.
abbrev pub ann_key : ApiKey
ann_key = record {
  key_id = 80;
  org_id = 10;
  user_id = some 1;
  key_hash = hex_encode (str "hsk_1");
  key_prefix = str "hsk_1";
  name = none;
  status = ApiKeyStatus.active;
  permissions = ApiKeyPermission.events_write ∷ [];
  created_at = 2;
  last_used_at = none;
}

abbrev pub ann_code : OtpToken
ann_code = record {
  id = 60;
  email_hash = hex_encode (str "ann@x.io");
  otp_hash = hex_encode (str "654321");
  expires_at = 9000;
  used = false;
  attempts = 1;
  created_at = 3;
}

abbrev pub anchored_event : Event
anchored_event = record {
  event_id = 90;
  org_id = 10;
  user_id = some 1;
  api_key_id = some 80;
  idempotency_key = none;
  prompt = str "p";
  output = str "o";
  model_id = str "m";
  workflow_id = none;
  metadata = none;
  timestamp = 4;
  received_at = 5;
  canonical_hash = some (str "ab");
  status = EventStatus.anchored;
  tx_hash = some (str "0xfeed");
  block_number = some (str "42");
  chain_id = some 84532;
  anchored_at = some 6;
  anchor_error = none;
  created_at = 5;
}

abbrev pub invite : Invitation
invite = record {
  invitation_id = 70;
  org_id = 10;
  invited_by = 1;
  role = UserRole.member;
  status = InvitationStatus.pending;
  token_hash = hex_encode (str "inv");
  expires_at = 9000;
  created_at = 2;
}

abbrev pub start : World
start = record {
  db = record {
    organisations = acme ∷ [];
    users = ann ∷ [];
    invitations = invite ∷ [];
    otp_tokens = ann_code ∷ [];
    refresh_tokens = ann_token ∷ [];
    password_reset_tokens = [];
    api_keys = ann_key ∷ record ann_key { key_id = 81; key_hash = hex_encode (str "hsk_2") } ∷ [];
    events = anchored_event ∷ [];
  };
  now = 1000;
  calls = 0;
  email_failed_attempts = [];
  confirm_failed_attempts = [];
  outbox = [];
  tasks = [];
  anchor_queue = [];
  processing_service = true;
}
