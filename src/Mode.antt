-- ===== src/Mode.antt =====
-- mode_handler.c: the configuration, the access list and the rate limit, under `g_mode_mutex`.
-- An array with its count is the list of its live entries. An IPv4 address is its 32-bit value in
-- network byte order, a C string the list of its bytes, null is `none`. The ratio, a float, is known
-- by what it makes of a request size, `(size_t)((double)req_size * (double)ratio)`.
pub mod Network
pub mod Acl
pub mod RateLimit
pub mod Auth
pub mod Locks
pub mod ConfigFile
use Prim.Native.Nat.{bit_and}
use dragon_ntpd.Base.{
  ℕ, ◌+◌, ◌*◌, ◌%◌, Bool, true, false, List, [], Option, none, some, ltb, leb, ◌==◌, if◌then◌else◌,
  length, ◌^◌, ◌<◌, ◌-◌,
}
use dragon_ntpd.Base.Int.{ℤ, pos, pos_part, neg_part, ltb_ℤ}
use dragon_ntpd.Base.Lock.{M, ◌>>=◌, ◌>>◌, pure, lock, unlock, get, modify}

-- The negated error numbers and success.
pub data Result : Type 0 where
  success einval enomem enoent e2big enotsup : Result

pub record ModeConfig : Type 0 where
  pub enable_control_messages : ℕ
  pub enable_symmetric_mode : ℕ
  pub enable_broadcast : ℕ
  pub drop_unauthenticated_control : ℕ
  pub enable_ntp_auth : ℕ
  pub acl_default_policy : ℕ
  pub rate_limit_interval : ℕ
  pub max_response_ratio : ℕ → ℕ
  pub initial_stratum : ℕ
  pub panic_threshold : ℕ

pub record AclEntry : Type 0 where
  pub ip : ℕ
  pub mask : ℕ
  pub flags : ℕ

pub record RateLimitEntry : Type 0 where
  pub ip : ℕ
  pub last_request : ℕ
  pub count : ℕ

-- The globals under the mutex.
pub record ModeState : Type 0 where
  pub config : ModeConfig
  pub acl_entries : List AclEntry
  pub rate_limit_entries : List RateLimitEntry

abbrev pub max_acl_entries : ℕ
max_acl_entries = 256

abbrev pub max_rate_limit_entries : ℕ
max_rate_limit_entries = 1024

-- The initial `g_mode_config`: NOQUERY, NOSERVE and LIMITED is 7.
abbrev pub default_config : ModeConfig
default_config = record {
  enable_control_messages = 0;
  enable_symmetric_mode = 1;
  enable_broadcast = 0;
  drop_unauthenticated_control = 1;
  enable_ntp_auth = 0;
  acl_default_policy = 7;
  rate_limit_interval = 2;
  max_response_ratio = λ req_size. req_size;
  initial_stratum = 16;
  panic_threshold = 1000;
}

unfoldable pub mode_handler_init : M ModeState Result
mode_handler_init = do
  lock
  modify (λ s. record s { acl_entries = []; rate_limit_entries = [] })
  unlock
  pure success

unfoldable pub acl_clear_entries : M ModeState Result
acl_clear_entries = do lock; modify (λ s. record s { acl_entries = [] }); unlock; pure success

unfoldable pub acl_get_entry_count : M ModeState ℕ
acl_get_entry_count = do lock; s ← get; unlock; pure (length s.acl_entries)

unfoldable pub rate_limit_cleanup : M ModeState (Unit {0})
rate_limit_cleanup = do lock; modify (λ s. record s { rate_limit_entries = [] }); unlock

unfoldable pub mode_handler_cleanup : M ModeState (Unit {0})
unfolding acl_get_entry_count acl_clear_entries rate_limit_cleanup
mode_handler_cleanup = do
  lock
  _ ← acl_get_entry_count
  _ ← acl_clear_entries
  rate_limit_cleanup
  modify (λ s. record s { acl_entries = []; rate_limit_entries = [] })
  unlock

-- `config` may be null.
unfoldable pub mode_handler_set_config : Option ModeConfig → M ModeState Result
unfolding acl_get_entry_count
mode_handler_set_config none = pure einval
mode_handler_set_config (some config) = do
  lock
  _ ← acl_get_entry_count
  modify (λ s. record s { config = config })
  unlock
  pure success

-- The configuration is copied out.
unfoldable pub mode_handler_get_config : M ModeState ModeConfig
mode_handler_get_config = do lock; s ← get; unlock; pure s.config

-- Size checks of a response. The mode is one of the eight of NTP.
unfoldable pub validate_packet_mode : ℕ → ℕ → ℕ → M ModeState Result
validate_packet_mode mode req_size resp_size = if ltb 7 mode then pure einval else (do
  lock
  s ← get
  unlock
  pure (if ltb (s.config.max_response_ratio req_size) resp_size then e2big else success))

unfoldable pub validate_ntp_version : ℕ → Result
validate_ntp_version version = if version == 4 then success else einval

-- 1 where the offset is beyond the threshold. The negation of the least `int64_t` wraps to itself, which is
-- below any threshold.
unfoldable pub check_panic_condition : ℤ → M ModeState Bool
check_panic_condition time_offset =
    if pos_part time_offset + neg_part time_offset == 0 then pure false else (do
      lock
      s ← get
      unlock
      let abs_offset =
          if ltb (2 ^ 63 - 1) (neg_part time_offset)
          then 0
          else if ltb_ℤ time_offset (pos 0)
          then neg_part time_offset
          else pos_part time_offset
      pure (ltb (s.config.panic_threshold * 1000000000) abs_offset))
