-- ===== src/Mode/ConfigFile.antt =====
-- The reading of modes.conf in mode_handler.c (`mode_handler_parse_config`, `parse_bool`, `parse_uint8`,
-- `parse_float`).
-- The file is what `fopen` and `fgets` make of it: its lines, or none. `sscanf` with " %63s %127s ",
-- `strtoll` and `strtod` are the C library's, and are parameters. The configuration is written without
-- its mutex.
pub mod Laws
use Prim.Native.Char.{code}
use Prim.Native.String
use Prim.Native.String.{String}
use dragon_ntpd.Base.{
  ℕ, ◌+◌, ◌/◌, ◌%◌, Bool, true, false, not, ◌&&◌, ◌||◌, List, [], ◌∷◌, Option, none, some, ltb, leb,
  ◌==◌, if◌then◌else◌, length, take,
}
use dragon_ntpd.Base.Int.{ℤ, pos, pos_part, ltb_ℤ}
use dragon_ntpd.Base.Lock.{M, ◌>>=◌, ◌>>◌, pure, modify}
use dragon_ntpd.Mode.{Result, success, einval, ModeConfig, ModeState}
use dragon_ntpd.Mode.Network.{Libc, same_text}
use dragon_ntpd.Mode.Acl.{acl_add_entry, acl_remove_entry}

-- The bytes of an ASCII text.
abbrev pub codes : String → List ℕ
codes String.[] = []
codes (String.◌∷◌ c s) = code c ∷ codes s

-- What `strtoll` makes of a text: the value, the index of `*endptr`, and whether `errno` was set.
pub record Integer : Type 0 where
  pub value : ℤ
  pub end : ℕ
  pub failed : Bool

-- What `strtod` makes of one: the ratio by what it makes of a size, and whether it is negative.
pub record Real : Type 0 where
  pub ratio : ℕ → ℕ
  pub negative : Bool
  pub end : ℕ
  pub failed : Bool

pub record Scanner : Type 0 where
  pub libc : Libc
  pub sscanf : List ℕ → Option (List ℕ × List ℕ)
  pub strtoll : List ℕ → Integer
  pub strtod : List ℕ → Real

-- The value 1 or 0, or none for -EINVAL.
unfoldable pub parse_bool : List ℕ → Option ℕ
parse_bool val =
    if same_text val (codes "1")
      || (same_text val (codes "yes")
          || (same_text val (codes "true") || same_text val (codes "on")))
    then some 1
    else if same_text val (codes "0")
        || (same_text val (codes "no")
            || (same_text val (codes "false") || same_text val (codes "off")))
    then some 0
    else none

-- The byte, or none for -EINVAL.
unfoldable pub parse_uint8 : Scanner → List ℕ → Option ℕ
parse_uint8 x val =
    let r = x.strtoll val in
    if r.failed || (ltb r.end (length val) || (ltb_ℤ r.value (pos 0) || ltb_ℤ (pos 255) r.value))
    then none
    else some (pos_part r.value)

unfoldable pub parse_float : Scanner → List ℕ → Option (ℕ → ℕ)
parse_float x val =
    let r = x.strtod val in
    if r.failed || (ltb r.end (length val) || r.negative) then none else some r.ratio

-- The threshold, from 1 to 65535, or none where it is not taken over.
unfoldable pub parse_threshold : Scanner → List ℕ → Option ℕ
parse_threshold x val =
    let r = x.strtoll val in
    if not r.failed
      && (leb (length val) r.end && (ltb_ℤ (pos 0) r.value && not (ltb_ℤ (pos 65535) r.value)))
    then some (pos_part r.value)
    else none

-- `strncmp (p, word, n) == 0`, for an `n` up to the word's length.
abbrev pub starts_with : List ℕ → ℕ → List ℕ → Bool
starts_with word n p = same_text (take n p) (take n word)

-- The flag of the word at the start of a text, 0 for none.
unfoldable pub word_flag : List ℕ → ℕ
word_flag p =
    if starts_with (codes "noquery") 7 p
    then 1
    else if starts_with (codes "noserve") 6 p
    then 2
    else if starts_with (codes "limited") 7 p
    then 4
    else if starts_with (codes "nopeer") 5 p
    then 8
    else if starts_with (codes "notrust") 6 p
    then 16
    else 0

-- `flags |= flag`, for a flag that is one bit or none.
abbrev pub set_flag : ℕ → ℕ → ℕ
set_flag flags flag = if (flag == 0) || (flags / flag % 2 == 1) then flags else flags + flag

-- The loop over the words: it looks at the start of the text and behind every comma.
unfoldable pub parse_policy : Bool → List ℕ → ℕ → ℕ
unfolding word_flag
parse_policy at_word [] flags = flags
parse_policy at_word (c ∷ rest) flags =
    parse_policy (c == b',') rest (if at_word then set_flag flags (word_flag (c ∷ rest)) else flags)

-- The keys, in the order of the tests.
pub data Key : Type 0 where
  control_messages symmetric_mode broadcast drop_control ntp_auth default_policy rate_interval
        response_ratio stratum panic allow remove unknown :
      Key

unfoldable pub key_of : List ℕ → Key
key_of key =
    if same_text key (codes "enable_control_messages")
    then control_messages
    else if same_text key (codes "enable_symmetric_mode")
    then symmetric_mode
    else if same_text key (codes "enable_broadcast")
    then broadcast
    else if same_text key (codes "drop_unauthenticated_control")
    then drop_control
    else if same_text key (codes "enable_ntp_auth")
    then ntp_auth
    else if same_text key (codes "acl_default_policy")
    then default_policy
    else if same_text key (codes "rate_limit_interval")
    then rate_interval
    else if same_text key (codes "max_response_ratio")
    then response_ratio
    else if same_text key (codes "initial_stratum")
    then stratum
    else if same_text key (codes "panic_threshold")
    then panic
    else if same_text key (codes "acl_allow")
    then allow
    else if same_text key (codes "acl_remove")
    then remove
    else unknown

-- A value that was read is stored, another is passed over.
abbrev pub store : {A : Type 0} → Option A → (A → ModeConfig → ModeConfig) → M ModeState (Unit {0})
store none f = pure tt
store (some a) f = modify (λ s. record s { config = f a s.config })

unfoldable pub apply_entry : Scanner → List ℕ → Key → M ModeState (Unit {0})
apply_entry x val control_messages =
    store (parse_bool val) (λ b config. record config { enable_control_messages = b })
apply_entry x val symmetric_mode =
    store (parse_bool val) (λ b config. record config { enable_symmetric_mode = b })
apply_entry x val broadcast =
    store (parse_bool val) (λ b config. record config { enable_broadcast = b })
apply_entry x val drop_control =
    store (parse_bool val) (λ b config. record config { drop_unauthenticated_control = b })
apply_entry x val ntp_auth =
    store (parse_bool val) (λ b config. record config { enable_ntp_auth = b })
apply_entry x val default_policy =
    store (some (parse_policy true val 0))
      (λ flags config. record config { acl_default_policy = flags })
apply_entry x val rate_interval =
    store (parse_uint8 x val) (λ interval config. record config { rate_limit_interval = interval })
apply_entry x val response_ratio =
    store (parse_float x val) (λ ratio config. record config { max_response_ratio = ratio })
apply_entry x val stratum =
    store (parse_uint8 x val) (λ n config. record config { initial_stratum = n })
apply_entry x val panic =
    store (parse_threshold x val) (λ t config. record config { panic_threshold = t })
apply_entry x val allow = do _ ← acl_add_entry x.libc (some val) 0; pure tt
apply_entry x val remove = do _ ← acl_remove_entry x.libc (some val); pure tt
apply_entry x val unknown = pure tt

-- The text before the first '#'.
abbrev pub uncommented : List ℕ → List ℕ
uncommented [] = []
uncommented (c ∷ rest) = if c == b'#' then [] else c ∷ uncommented rest

abbrev pub apply_pair : Scanner → Option (List ℕ × List ℕ) → M ModeState (Unit {0})
apply_pair x none = pure tt
apply_pair x (some (key, val)) = apply_entry x val (key_of key)

unfoldable pub apply_lines : Scanner → List (List ℕ) → M ModeState (Unit {0})
apply_lines x [] = pure tt
apply_lines x (line ∷ lines) = apply_pair x (x.sscanf (uncommented line)) >> apply_lines x lines

-- The lines of the file, none where it cannot be opened; and first, whether a name was given.
unfoldable pub mode_handler_parse_config :
    Scanner → Bool → Option (List (List ℕ)) → M ModeState Result
unfolding apply_lines
mode_handler_parse_config x false file = pure einval
mode_handler_parse_config x true none = pure success
mode_handler_parse_config x true (some lines) = do apply_lines x lines; pure success
