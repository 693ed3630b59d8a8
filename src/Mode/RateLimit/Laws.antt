-- ===== src/Mode/RateLimit/Laws.antt =====
-- The rate limit over time.
use dragon_ntpd.Base.{
  ℕ, zero, suc, ◌+◌, ◌≡◌, refl, ◌≢◌, ap, false, List, [], ◌∷◌, ◌++◌, Option, none, some, ltb, ◌==◌,
  if◌then◌else◌, length, get_elem?, arith, Option-cases, inl, inr,
}
use mathlib.Core.Option
use dragon_ntpd.Base.Lock.{done, free}
use dragon_ntpd.Mode.{RateLimitEntry, ModeState}
use dragon_ntpd.Mode.Network.{Libc, parse_ip}
use dragon_ntpd.Mode.RateLimit.{
  find_index, rate_limit_find, rate_limit_insert, rate_limit_check, rate_limit_update, touch,
  new_entry, evicted, verdict, entry_at, touched, limited, pass,
}

find_index-append :
    (ip : ℕ) (es : List RateLimitEntry)
    → find_index ip es ≡ none
    → find_index ip (es ++ new_entry ip ∷ []) ≡ some (length es)
unfolding find_index
find_index-append ip [] h = ground arith
find_index-append ip (e ∷ es) h = ground (arith, find_index-append ip es)

pub find_index-evicted :
    (ip : ℕ) (es : List RateLimitEntry)
    → find_index ip es ≡ none
    → find_index ip (evicted es) ≡ none
unfolding find_index
find_index-evicted ip [] h = ground arith
find_index-evicted ip (e ∷ es) h = ground arith

pub touch-cons :
    (now i : ℕ) (e : RateLimitEntry) (es : List RateLimitEntry)
    → touch now (suc i) (e ∷ es) ≡ e ∷ touch now i es
touch-cons now i e es = ground arith

-- The search finds the same index after the entry there has been touched, and the entry has the time.
find_index-touch :
    (now ip i : ℕ) (es : List RateLimitEntry)
    → find_index ip es ≡ some i
    → (find_index ip (touch now i es) ≡ some i)
      × (Option.map (λ (e : RateLimitEntry). e.last_request) (get_elem? (touch now i es) i)
          ≡ some now)
unfolding find_index
find_index-touch now ip i [] h = cc
find_index-touch now ip zero (e ∷ es) h = ground arith
find_index-touch now ip (suc i) (e ∷ es) h =
    rw (touch-cons now i e es) (ground (arith, find_index-touch now ip i es))

-- After an insertion the table holds the address, at the index that is returned.
insert-finds :
    (c : Libc) (text : List ℕ) (es : List RateLimitEntry)
    → parse_ip c (some text) ≢ 0
    → (i : ℕ) × ((rate_limit_insert c (some text) es).0 ≡ some i)
      × (find_index (parse_ip c (some text)) (rate_limit_insert c (some text) es).1 ≡ some i)
unfolding rate_limit_insert rate_limit_find
insert-finds c text es known =
    let nonzero : (parse_ip c (some text) == 0) ≡ false = ground arith in
    elim (Option-cases (find_index (parse_ip c (some text)) es)) [
      | inl absent ↦ (
        length (evicted es),
        rw (nonzero, absent),
        rw (nonzero, absent)
            (find_index-append (parse_ip c (some text)) (evicted es)
              (find_index-evicted (parse_ip c (some text)) es absent)),
      )
      | inr (i, found) ↦ (i, rw (nonzero, found), rw (nonzero, found) found)
    ]

verdict-touched :
    (later now interval ip i : ℕ) (r : Option ℕ × List RateLimitEntry)
    → r.0 ≡ some i
    → find_index ip r.1 ≡ some i
    → verdict later interval (entry_at (find_index ip (touched now r)) (touched now r))
      ≡ (if ltb later (now + interval) then limited else pass)
verdict-touched later now interval ip i (none, es) e found = cc
verdict-touched later now interval ip i (some j, es) e found =
    ground (arith, find_index-touch now ip j es)

-- A client that was served at `now`: until the interval of the configuration has passed, and no
-- longer, `rate_limit_check` limits it, whatever the table held before, full or not. Both calls return
-- with the mutex free, and the check changes nothing.
pub rate_limit_check-rate_limit_update :
    (c : Libc) (text : List ℕ) (now later : ℕ) (s : ModeState)
    → parse_ip c (some text) ≢ 0
    → (s' : ModeState) × (rate_limit_update c now (some text) (free s) ≡ done tt (free s'))
      × (rate_limit_check c later (some text) (free s')
          ≡ done
              (if ltb later (now + s.config.rate_limit_interval) then limited else pass)
              (free s'))
unfolding rate_limit_update rate_limit_check rate_limit_find
rate_limit_check-rate_limit_update c text now later s known =
    let table = rate_limit_insert c (some text) s.rate_limit_entries in
    let nonzero : (parse_ip c (some text) == 0) ≡ false = ground arith in
    let (i, at, found) = insert-finds c text s.rate_limit_entries known in
    let s' : ModeState = record s { rate_limit_entries = touched now table } in
    (
      s',
      refl,
      rw nonzero (
          ap (λ v. done v (free s'))
            (verdict-touched later now s.config.rate_limit_interval (parse_ip c (some text)) i table
              at found)),
    )
