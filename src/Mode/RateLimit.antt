-- ===== src/Mode/RateLimit.antt =====
-- The rate limit of mode_handler.c. Times are whole seconds and do not go below 0.
pub mod Laws
pub mod Table
use dragon_ntpd.Base.{
  ℕ, zero, suc, ◌+◌, ◌%◌, ◌<◌, Bool, true, false, List, [], ◌∷◌, ◌++◌, Option, none, some, ltb, leb,
  ◌==◌, if◌then◌else◌, length, set, drop, get_elem?,
}
use dragon_ntpd.Base.Lock.{M, ◌>>=◌, ◌>>◌, pure, lock, unlock, get, modify}
use dragon_ntpd.Mode.{RateLimitEntry, ModeState, max_rate_limit_entries}
use dragon_ntpd.Mode.Network.{Libc, parse_ip}
use dragon_ntpd.Mode.Acl.{peek}

-- The index of the first entry for the address.
unfoldable pub find_index : ℕ → List RateLimitEntry → Option ℕ
find_index ip [] = none
find_index ip (e ∷ es) =
    let rest = find_index ip es in
    if e.ip == ip then some 0 else elim rest [ none ↦ none | some i ↦ some (suc i) ]

-- The pointer that `rate_limit_find` returns is the index of the entry.
unfoldable pub rate_limit_find : Libc → Option (List ℕ) → List RateLimitEntry → Option ℕ
rate_limit_find c none es = none
rate_limit_find c (some client_ip) es =
    let ip = parse_ip c (some client_ip) in if ip == 0 then none else find_index ip es

abbrev pub new_entry : ℕ → RateLimitEntry
new_entry ip = record { ip = ip; last_request = 0; count = 0 }

-- The table without its oldest entry where it is full.
abbrev pub evicted : List RateLimitEntry → List RateLimitEntry
evicted es = if leb max_rate_limit_entries (length es) then drop 1 es else es

-- The entry's index, or null, and the table.
unfoldable pub rate_limit_insert :
    Libc → Option (List ℕ) → List RateLimitEntry → Option ℕ × List RateLimitEntry
unfolding rate_limit_find
rate_limit_insert c none es = (none, es)
rate_limit_insert c (some client_ip) es =
    let ip = parse_ip c (some client_ip) in
    if ip == 0 then (none, es) else elim (rate_limit_find c (some client_ip) es) [
      | some i ↦ (some i, es)
      | none ↦ (some (length (evicted es)), evicted es ++ new_entry ip ∷ [])
    ]

-- The result of `rate_limit_check`: 0, 1 or -EINVAL.
pub data Verdict : Type 0 where
  pass limited invalid : Verdict

-- `now - last_request < interval`, without going below 0.
abbrev pub too_soon : ℕ → ℕ → ℕ → Bool
too_soon now interval last = ltb now (last + interval)

abbrev pub verdict : ℕ → ℕ → Option RateLimitEntry → Verdict
verdict now interval none = pass
verdict now interval (some e) = if too_soon now interval e.last_request then limited else pass

-- What the pointer of `rate_limit_find` points to.
abbrev pub entry_at : Option ℕ → List RateLimitEntry → Option RateLimitEntry
entry_at none es = none
entry_at (some i) es = get_elem? es i

unfoldable pub rate_limit_check : Libc → ℕ → Option (List ℕ) → M ModeState Verdict
rate_limit_check c now none = pure invalid
rate_limit_check c now (some client_ip) = do
  config ← peek
  s ← get
  let es = s.rate_limit_entries
  let entry = entry_at (rate_limit_find c (some client_ip) es) es
  pure (verdict now config.rate_limit_interval entry)

-- `last_request` becomes the time of the call, and `count`, a byte, goes up by one.
abbrev pub touch : ℕ → ℕ → List RateLimitEntry → List RateLimitEntry
touch now i es = elim (get_elem? es i) [
  | none ↦ es
  | some e ↦ set es i (record e { last_request = now; count = (e.count + 1) % 256 })
]

abbrev pub touched : ℕ → Option ℕ × List RateLimitEntry → List RateLimitEntry
touched now (none, es) = es
touched now (some i, es) = touch now i es

unfoldable pub rate_limit_update : Libc → ℕ → Option (List ℕ) → M ModeState (Unit {0})
rate_limit_update c now none = pure tt
rate_limit_update c now (some client_ip) = modify (λ s. record s {
  rate_limit_entries = touched now (rate_limit_insert c (some client_ip) s.rate_limit_entries);
})
