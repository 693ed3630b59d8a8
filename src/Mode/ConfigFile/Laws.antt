-- ===== src/Mode/ConfigFile/Laws.antt =====
-- What a modes.conf can make of the configuration.
use dragon_ntpd.Base.{
  ℕ, ◌≤◌, ◌<◌, ◌≡◌, refl, ◌⊎◌, inl, inr, Bool, true, false, List, [], ◌∷◌, Option, none, some, ◌==◌,
  if◌then◌else◌, length, arith, Bool-cases, Option-cases,
}
use dragon_ntpd.Base.Lock.{done, free, ◌>>=◌, pure, M}
use dragon_ntpd.Mode.{ModeState, ModeConfig, AclEntry, success}
use dragon_ntpd.Mode.Network.{Libc, parse_network}
use dragon_ntpd.Mode.Acl.{acl_add_entry, acl_remove_entry, remove_entry}
use dragon_ntpd.Mode.Acl.Entries.{acl_add_entry_lem, with_entry}
use dragon_ntpd.Mode.ConfigFile.{
  Scanner, Key, parse_bool, parse_uint8, parse_float, parse_threshold, codes, starts_with,
  word_flag, set_flag, parse_policy, store, apply_entry, apply_pair, apply_lines, uncommented,
  key_of, mode_handler_parse_config, control_messages, symmetric_mode, broadcast, drop_control,
  ntp_auth, default_policy, rate_interval, response_ratio, stratum, panic, allow, remove, unknown,
}

-- The configuration is one that the fields of the source can hold.
abbrev pub IsConfig : ModeConfig → Type 0
IsConfig config =
    (config.enable_control_messages ≤ 1)
    × (config.enable_symmetric_mode ≤ 1)
    × (config.enable_broadcast ≤ 1)
    × (config.drop_unauthenticated_control ≤ 1)
    × (config.enable_ntp_auth ≤ 1)
    × (config.acl_default_policy < 32)
    × (config.rate_limit_interval < 256)
    × (config.initial_stratum < 256)
    × (1 ≤ config.panic_threshold)
    × (config.panic_threshold ≤ 65535)

-- And the access list fits its array.
pub record IsConfigured (s : ModeState) : Type 0 where
  pub config : IsConfig s.config
  pub entries : length s.acl_entries ≤ 256

-- A call that returns with the mutex free, in a state of that kind.
abbrev Configures : M ModeState (Unit {0}) → ModeState → Type 0
Configures m s = (s' : ModeState) × (m (free s) ≡ done tt (free s')) × IsConfigured s'

parse_bool-bound : (val : List ℕ) {b : ℕ} → parse_bool val ≡ some b → b ≤ 1
unfolding parse_bool
parse_bool-bound val e = ground arith

parse_uint8-bound : (x : Scanner) (val : List ℕ) {n : ℕ} → parse_uint8 x val ≡ some n → n < 256
unfolding parse_uint8
parse_uint8-bound x val e = ground arith

parse_threshold-bound :
    (x : Scanner) (val : List ℕ) {t : ℕ} → parse_threshold x val ≡ some t → (1 ≤ t) × (t ≤ 65535)
unfolding parse_threshold
parse_threshold-bound x val e = (ground arith, ground arith)

abbrev OneBit : ℕ → Type 0
OneBit n = (n ≡ 0) ⊎ (n ≡ 1) ⊎ (n ≡ 2) ⊎ (n ≡ 4) ⊎ (n ≡ 8) ⊎ (n ≡ 16)

choice :
    (a b c d e : Bool)
    → OneBit
        (if a then 1 else if b then 2 else if c then 4 else if d then 8 else if e then 16 else 0)
choice true b c d e = inr (inl refl)
choice false true c d e = inr (inr (inl refl))
choice false false true d e = inr (inr (inr (inl refl)))
choice false false false true e = inr (inr (inr (inr (inl refl))))
choice false false false false true = inr (inr (inr (inr (inr refl))))
choice false false false false false = inl refl

word_flag-OneBit : (p : List ℕ) → OneBit (word_flag p)
unfolding word_flag
word_flag-OneBit p =
    choice (starts_with (codes "noquery") 7 p) (starts_with (codes "noserve") 6 p)
      (starts_with (codes "limited") 7 p) (starts_with (codes "nopeer") 5 p)
      (starts_with (codes "notrust") 6 p)

set_flag-bound : (flags flag : ℕ) → flags < 32 → OneBit flag → set_flag flags flag < 32
set_flag-bound flags flag h (inl e) = rw e h
set_flag-bound flags flag h (inr (inl e)) = rw e (ground arith)
set_flag-bound flags flag h (inr (inr (inl e))) = rw e (ground arith)
set_flag-bound flags flag h (inr (inr (inr (inl e)))) = rw e (ground arith)
set_flag-bound flags flag h (inr (inr (inr (inr (inl e))))) = rw e (ground arith)
set_flag-bound flags flag h (inr (inr (inr (inr (inr e))))) = rw e (ground arith)

parse_policy-bound :
    (at_word : Bool) (p : List ℕ) (flags : ℕ) → flags < 32 → parse_policy at_word p flags < 32
unfolding parse_policy
parse_policy-bound at_word [] flags h = h
parse_policy-bound true (c ∷ rest) flags h =
    parse_policy-bound (c == b',') rest (set_flag flags (word_flag (c ∷ rest)))
      (set_flag-bound flags (word_flag (c ∷ rest)) h (word_flag-OneBit (c ∷ rest)))
parse_policy-bound false (c ∷ rest) flags h = parse_policy-bound (c == b',') rest flags h

store-Configures :
    {A : Type 0} (s : ModeState) (o : Option A) (f : A → ModeConfig → ModeConfig)
    → IsConfigured s
    → ((a : A) → o ≡ some a → IsConfig (f a s.config))
    → Configures (store o f) s
store-Configures s none f h k = (s, refl, h)
store-Configures s (some a) f h k =
    (record s { config = f a s.config }, refl, record { config = k a refl; entries = h.entries })

remove_entry-length :
    (net mask : ℕ) (es : List AclEntry) {es' : List AclEntry}
    → remove_entry net mask es ≡ some es'
    → length es' ≤ length es
unfolding remove_entry
remove_entry-length net mask [] e = absurd cc
remove_entry-length net mask (x ∷ es) e = elim (Option-cases (remove_entry net mask es)) [
  | inl last ↦ ground (arith, last)
  | inr (rest, found) ↦ ground (arith, found, remove_entry-length net mask es found)
]

with_entries :
    (s : ModeState) (es : List AclEntry)
    → IsConfigured s
    → length es ≤ 256
    → IsConfigured (record s { acl_entries = es })
with_entries s es h few = record { config = h.config; entries = few }

add-Configures :
    (c : Libc) (val : List ℕ) (s : ModeState)
    → IsConfigured s
    → Configures (do _ ← acl_add_entry c (some val) 0; pure tt) s
add-Configures c val s h = elim (acl_add_entry_lem c val 0 s h.entries) [
  | inl (full, e) ↦ (s, rw (◌>>=◌, e), h)
  | inr (inl (room, bad, e)) ↦ (s, rw (◌>>=◌, e), h)
  | inr (inr (few, good, e)) ↦
      (with_entry c val 0 s, rw (◌>>=◌, e), with_entries s (with_entry c val 0 s).acl_entries h few)
]

remove-Configures :
    (c : Libc) (val : List ℕ) (s : ModeState)
    → IsConfigured s
    → Configures (do _ ← acl_remove_entry c (some val); pure tt) s
unfolding acl_remove_entry remove_entry
remove-Configures c val s h =
    let net = (parse_network c (some val)).0 in
    let mask = (parse_network c (some val)).1 in
    elim (Bool-cases (net == 0)) [
      | inl bad ↦ (s, rw bad, h)
      | inr good ↦ elim (Option-cases (remove_entry net mask s.acl_entries)) [
        | inl absent ↦ (s, rw (good, absent), h)
        | inr (es, found) ↦
            let few = remove_entry-length net mask s.acl_entries found in
            let fits = h.entries in
            (record s { acl_entries = es }, rw (good, found), with_entries s es h (omega arith))
      ]
    ]

apply_entry-Configures :
    (x : Scanner) (val : List ℕ) (key : Key) (s : ModeState)
    → IsConfigured s
    → Configures (apply_entry x val key) s
unfolding apply_entry
apply_entry-Configures x val control_messages s h =
    store-Configures s (parse_bool val) _ h
      (λ b e. ground (arith, h.config, parse_bool-bound val e))
apply_entry-Configures x val symmetric_mode s h =
    store-Configures s (parse_bool val) _ h
      (λ b e. ground (arith, h.config, parse_bool-bound val e))
apply_entry-Configures x val broadcast s h =
    store-Configures s (parse_bool val) _ h
      (λ b e. ground (arith, h.config, parse_bool-bound val e))
apply_entry-Configures x val drop_control s h =
    store-Configures s (parse_bool val) _ h
      (λ b e. ground (arith, h.config, parse_bool-bound val e))
apply_entry-Configures x val ntp_auth s h =
    store-Configures s (parse_bool val) _ h
      (λ b e. ground (arith, h.config, parse_bool-bound val e))
apply_entry-Configures x val default_policy s h = (
  record s { config = record s.config { acl_default_policy = parse_policy true val 0 } },
  refl,
  record {
    config = ground (arith, h.config, parse_policy-bound true val 0 (omega arith));
    entries = h.entries;
  },
)
apply_entry-Configures x val rate_interval s h =
    store-Configures s (parse_uint8 x val) _ h
      (λ n e. ground (arith, h.config, parse_uint8-bound x val e))
apply_entry-Configures x val response_ratio s h =
    store-Configures s (parse_float x val) _ h (λ r e. ground (arith, h.config))
apply_entry-Configures x val stratum s h =
    store-Configures s (parse_uint8 x val) _ h
      (λ n e. ground (arith, h.config, parse_uint8-bound x val e))
apply_entry-Configures x val panic s h =
    store-Configures s (parse_threshold x val) _ h
      (λ t e. ground (arith, h.config, parse_threshold-bound x val e))
apply_entry-Configures x val allow s h = add-Configures x.libc val s h
apply_entry-Configures x val remove s h = remove-Configures x.libc val s h
apply_entry-Configures x val unknown s h = (s, refl, h)

pair-Configures :
    (x : Scanner) (pair : Option (List ℕ × List ℕ)) (s : ModeState)
    → IsConfigured s
    → Configures (apply_pair x pair) s
pair-Configures x none s h = (s, refl, h)
pair-Configures x (some (key, val)) s h = apply_entry-Configures x val (key_of key) s h

lines-Configures :
    (x : Scanner) (lines : List (List ℕ)) (s : ModeState)
    → IsConfigured s
    → Configures (apply_lines x lines) s
unfolding apply_lines
lines-Configures x [] s h = (s, refl, h)
lines-Configures x (line ∷ lines) s h =
    let (s₁, e₁, h₁) = pair-Configures x (x.sscanf (uncommented line)) s h in
    let (s₂, e₂, h₂) = lines-Configures x lines s₁ h₁ in (s₂, rw (◌>>=◌, e₁) e₂, h₂)

-- Every modes.conf, whatever its lines say, and whatever the C library reads in them: with the mutex
-- free, `mode_handler_parse_config` returns success with the mutex free, and the configuration stays one
-- that the fields of the source can hold: the switches are 0 or 1, the policy has known flags only, the
-- interval and the stratum are bytes, the threshold is from 1 to 65535, and the access list fits its 256 places.
pub mode_handler_parse_config-IsConfigured :
    (x : Scanner) (lines : List (List ℕ)) (s : ModeState)
    → IsConfigured s
    → (s' : ModeState) × (mode_handler_parse_config x true (some lines) (free s)
        ≡ done success (free s'))
      × IsConfigured s'
unfolding mode_handler_parse_config
mode_handler_parse_config-IsConfigured x lines s h =
    let (s', e, h') = lines-Configures x lines s h in (s', rw (◌>>=◌, e), h')
