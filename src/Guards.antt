-- ===== src/Guards.antt =====
-- apps/api/src/common/guards: which requests are let in by the worker's key.
pub mod Key
use code2cloud.Prelude.{
  String, Bool, true, false, Option, none, some, ◌==◌, ◌&&◌, if◌then◌else◌, truthy, not,
}

-- The headers that the guards read, and the answer of the JWT strategy of passport.
pub record Incoming : Type 0 where
  pub worker_api_key : Option String
  pub jwt_allows : Bool

-- An exception of the guards, or their answer.
pub data Verdict : Type 0 where
  missing_key invalid_key : Verdict
  answered : Bool → Verdict

-- `valid && key === valid`
abbrev pub is_valid_key : Option String → String → Bool
is_valid_key none key = false
is_valid_key (some valid) key = not (valid == "") && key == valid

abbrev pub check_key : Option String → String → Verdict
check_key valid key = if is_valid_key valid key then answered true else invalid_key

-- WorkerApiKeyGuard
abbrev pub worker_key : Option String → Option String → Verdict
worker_key valid none = missing_key
worker_key valid (some key) = if key == "" then missing_key else check_key valid key

unfoldable pub worker_guard : Option String → Incoming → Verdict
worker_guard valid req = worker_key valid req.worker_api_key

-- JwtAuthGuard: a key that is given decides alone.
abbrev pub jwt_key : Option String → Option String → Bool → Verdict
jwt_key valid none jwt = answered jwt
jwt_key valid (some key) jwt = if key == "" then answered jwt else check_key valid key

unfoldable pub jwt_guard : Option String → Incoming → Verdict
jwt_guard valid req = jwt_key valid req.worker_api_key req.jwt_allows
