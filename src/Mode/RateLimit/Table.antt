-- ===== src/Mode/RateLimit/Table.antt =====
-- The invariant of the table of the rate limit.
use dragon_ntpd.Base.{
  ℕ, zero, suc, ◌≤◌, ◌<◌, ◌≡◌, refl, ◌≢◌, List, [], ◌∷◌, ◌++◌, Option, none, some, ◌==◌, length,
  length-append, arith, Option-cases, inl, inr, Bool-cases,
}
use dragon_ntpd.Base.Lock.{done, free}
use dragon_ntpd.Mode.{RateLimitEntry, ModeState}
use dragon_ntpd.Mode.Network.{Libc, parse_ip}
use dragon_ntpd.Mode.RateLimit.{
  find_index, rate_limit_find, rate_limit_insert, rate_limit_update, touch, new_entry, evicted,
  touched,
}
use dragon_ntpd.Mode.RateLimit.Laws.{touch-cons, find_index-evicted}

-- No address stands twice in the table.
abbrev pub Distinct : List RateLimitEntry → Type 0
Distinct [] = Unit
Distinct (e ∷ es) = (find_index e.ip es ≡ none) × Distinct es

pub record IsTable (es : List RateLimitEntry) : Type 0 where
  pub few : length es ≤ 1024
  pub distinct : Distinct es

find_index-append_other :
    (ip new : ℕ) (es : List RateLimitEntry)
    → find_index ip es ≡ none
    → ip ≢ new
    → find_index ip (es ++ new_entry new ∷ []) ≡ none
unfolding find_index
find_index-append_other ip new [] h ne = ground arith
find_index-append_other ip new (e ∷ es) h ne = ground (arith, find_index-append_other ip new es)

Distinct-append :
    (ip : ℕ) (es : List RateLimitEntry)
    → find_index ip es ≡ none
    → Distinct es
    → Distinct (es ++ new_entry ip ∷ [])
unfolding find_index
Distinct-append ip [] h d = ground arith
Distinct-append ip (e ∷ es) h d =
    ground (arith, Distinct-append ip es, find_index-append_other e.ip ip es)

evicted-IsTable :
    (es : List RateLimitEntry) → IsTable es → Distinct (evicted es) × (length (evicted es) < 1024)
evicted-IsTable [] t = ground arith
evicted-IsTable (e ∷ es) t = ground (arith, t.distinct)

find_index-touch_any :
    (now ip i : ℕ) (es : List RateLimitEntry) → find_index ip (touch now i es) ≡ find_index ip es
unfolding find_index
find_index-touch_any now ip i [] = refl
find_index-touch_any now ip zero (e ∷ es) = ground arith
find_index-touch_any now ip (suc i) (e ∷ es) =
    rw (touch-cons now i e es) (ground (arith, find_index-touch_any now ip i es))

touch-IsTable :
    (now i : ℕ) (es : List RateLimitEntry)
    → Distinct es
    → Distinct (touch now i es) × (length (touch now i es) ≡ length es)
touch-IsTable now i [] d = (d, refl)
touch-IsTable now zero (e ∷ es) d = (d, refl)
touch-IsTable now (suc i) (e ∷ es) d =
    rw (touch-cons now i e es)
      (ground (arith, touch-IsTable now i es, find_index-touch_any now e.ip i es))

insert-IsTable :
    (c : Libc) (text : List ℕ) (es : List RateLimitEntry)
    → IsTable es
    → IsTable (rate_limit_insert c (some text) es).1
unfolding rate_limit_insert rate_limit_find
insert-IsTable c text es t = elim (Bool-cases (parse_ip c (some text) == 0)) [
  | inl unknown ↦ rw unknown t
  | inr known ↦ elim (Option-cases (find_index (parse_ip c (some text)) es)) [
    | inl absent ↦
        let (d, few) = evicted-IsTable es t in
        rw (known, absent)
          record {
            few =
                omega (arith, length-append (evicted es) (new_entry (parse_ip c (some text)) ∷ []));
            distinct =
                Distinct-append (parse_ip c (some text)) (evicted es)
                  (find_index-evicted (parse_ip c (some text)) es absent) d;
          }
    | inr (i, found) ↦ rw (known, found) t
  ]
]

touched-IsTable :
    (now : ℕ) (r : Option ℕ × List RateLimitEntry) → IsTable r.1 → IsTable (touched now r)
touched-IsTable now (none, es) t = t
touched-IsTable now (some i, es) t =
    let (d, len) = touch-IsTable now i es t.distinct in
    record { few = omega (arith, t.few); distinct = d }

-- The table keeps at most 1024 entries, for distinct addresses, under every `rate_limit_update`: with
-- any text, at any time, also where the oldest entry has to go.
pub rate_limit_update-IsTable :
    (c : Libc) (text : Option (List ℕ)) (now : ℕ) (s : ModeState)
    → IsTable s.rate_limit_entries
    → (s' : ModeState) × (rate_limit_update c now text (free s) ≡ done tt (free s'))
      × IsTable s'.rate_limit_entries
      × (s'.config ≡ s.config)
      × (s'.acl_entries ≡ s.acl_entries)
unfolding rate_limit_update
rate_limit_update-IsTable c none now s t = (s, refl, t, refl, refl)
rate_limit_update-IsTable c (some text) now s t = (
  record s {
    rate_limit_entries = touched now (rate_limit_insert c (some text) s.rate_limit_entries);
  },
  refl,
  touched-IsTable now (rate_limit_insert c (some text) s.rate_limit_entries)
      (insert-IsTable c text s.rate_limit_entries t),
  refl,
  refl,
)
