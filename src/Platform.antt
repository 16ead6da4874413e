-- ===== src/Platform.antt =====
-- What the program calls and does not implement, as one interface: node's crypto, bcrypt,
-- jsonwebtoken, jose, otplib, Amazon SES, PostgreSQL through TypeORM, and the process environment.
-- A call whose result is not a function of its arguments (randomness, a remote service) also gets
-- the number of such calls made before it.
pub mod Rows
use hashira_be_railway_deplo.Base.{ℕ, Bool, Option, List, Text}
use hashira_be_railway_deplo.Types.{UserRole, Result}
use hashira_be_railway_deplo.Entities.{Uuid, Date}
use hashira_be_railway_deplo.Platform.Rows.{Query}

-- JwtPayload of src/utils/jwt.ts and src/middleware/authenticate.ts.
pub record JwtPayload : Type 0 where
  pub user_id : Uuid
  pub org_id : Option Uuid
  pub role : UserRole
  pub email : Text

-- The claims of a Google ID token that the program reads.
pub record GoogleClaims : Type 0 where
  pub sub : Text
  pub email : Text
  pub email_verified : Bool

pub record Platform : Type 1 where
  -- PostgreSQL, and the column default gen_random_uuid()
  pub query : Query
  pub open query use {find_one, find_latest, order_desc, order_asc}
  pub uuid : ℕ → Uuid
  -- createHash('sha256').update(s).digest('hex')
  pub sha256 : Text → Text
  -- String(crypto.randomInt(min, max)) and crypto.randomBytes(32).toString('base64url')
  pub random_int : ℕ → ℕ → ℕ → Text
  pub random_token : ℕ → Text
  -- bcrypt.hash(password, 12), which draws a salt, and bcrypt.compare
  pub bcrypt_hash : ℕ → Text → Text
  pub bcrypt_compare : Text → Text → Bool
  -- jwt.sign and jwt.verify with JWT_SECRET, at the time of the call
  pub jwt_sign : JwtPayload → Date → Text
  pub jwt_verify : Text → Date → Option JwtPayload
  -- jwtVerify of a Google ID token against Google's keys, the audience and the issuers
  pub google_verify : Text → Date → Option GoogleClaims
  -- otplib: generateSecret, generateURI with qrcode.toDataURL, and verify with epochTolerance 30
  pub totp_secret : ℕ → Text
  pub totp_uri : Text → Text → Text
  pub qr_code : Text → Text
  pub totp_verify : Text → Text → Date → Bool
  -- crypto.createHash('sha256').update(s).digest(), crypto.randomBytes(12)
  pub sha256_bytes : Text → List ℕ
  pub random_iv : ℕ → List ℕ
  -- AES-256-GCM with a key and an iv: from UTF-8 text to the tag and the data, and back, where
  -- `final` throws if the tag is wrong
  pub gcm_seal : List ℕ → List ℕ → Text → List ℕ × List ℕ
  pub gcm_open : List ℕ → List ℕ → List ℕ → List ℕ → Option Text
  -- buf.toString('base64'), Buffer.from(s, 'base64')
  pub base64_encode : List ℕ → Text
  pub base64_decode : Text → List ℕ
  -- process.env.TOTP_ENCRYPTION_KEY, process.env.EVENT_ENCRYPTION_KEY
  pub totp_encryption_key : Option Text
  pub event_encryption_key : Option Text
  -- SESClient.send: the message of the error with which it fails, if it does
  pub ses_send : ℕ → Text → Option Text
  -- The text of a uuid, new Date(ms).toISOString()
  pub uuid_text : Uuid → Text
  pub iso_string : Date → Text
  -- new Date(s).getTime(), unless it is NaN
  pub parse_date : Text → Option Date
  -- viem's writeContract for anchorHash, and waitForTransactionReceipt, which gives the block's number
  pub write_contract : ℕ → Text → Text → Result Text
  pub wait_for_receipt : ℕ → Text → ℕ → Result ℕ
  -- BlockchainConfig: the chain and the confirmations to wait for; process.env.ANCHOR_MAX_RETRIES
  pub chain_id : ℕ
  pub confirmation_depth : ℕ
  pub anchor_max_retries : Option Text
  -- zod's z.string().email() and z.string().datetime({ offset: true })
  pub is_email : Text → Bool
  pub is_datetime : Text → Bool
  -- stripe.checkout.sessions.create for an address and an organisation: the url of the session, if
  -- it has one; env.FRONTEND_URL
  pub stripe_checkout : ℕ → Text → Uuid → Result (Option Text)
  pub frontend_url : Option Text
  -- process.env.SKIP_SES === 'true', process.env.NODE_ENV === 'production'
  pub skip_ses : Bool
  pub production : Bool
