-- ===== src/Mode/Acl/Entries.antt =====
-- The access list: what adding and removing entries changes.
use dragon_ntpd.Base.{
  ◌⊎◌, ℕ, ◌≤◌, ◌<◌, ◌≡◌, ◌≢◌, false, List, [], ◌∷◌, ◌++◌, none, some, leb, ◌==◌, if◌then◌else◌,
  length, length-append, arith, Bool-cases, inl, inr,
}
use dragon_ntpd.Base.Lock.{done, free}
use dragon_ntpd.Mode.{success, einval, enomem, AclEntry, ModeState}
use dragon_ntpd.Mode.Network.{Libc, parse_network, ip_in_network}
use dragon_ntpd.Mode.Acl.{acl_add_entry, acl_remove_entry, remove_entry, find_entry, finish_removal}

-- An entry at the end of the list is found by the addresses that no entry before it holds.
pub find_entry-append :
    (ip : ℕ) (es : List AclEntry) (e : AclEntry)
    → find_entry ip (es ++ e ∷ []) ≡ elim (find_entry ip es) [
      | none ↦ if ip_in_network ip e.ip e.mask then some e else none
      | some f ↦ some f
    ]
unfolding find_entry
find_entry-append ip [] e = ground arith
find_entry-append ip (x ∷ es) e = ground (arith, find_entry-append ip es e)

module _ (c : Libc) (text : List ℕ) (flags : ℕ) (s : ModeState) where
  -- The entry that a text and flags stand for, and the state with it at the end of the list.
  abbrev pub entry_of : AclEntry
  entry_of = record {
    ip = (parse_network c (some text)).0;
    mask = (parse_network c (some text)).1;
    flags = flags;
  }

  abbrev pub with_entry : ModeState
  with_entry = record s { acl_entries = s.acl_entries ++ entry_of ∷ [] }

  added :
      leb 256 (length s.acl_entries) ≡ false
      → ((parse_network c (some text)).0 == 0) ≡ false
      → acl_add_entry c (some text) flags (free s) ≡ done success (free with_entry)
  unfolding acl_add_entry
  added room good = rw (room, good)

  -- With the mutex free, `acl_add_entry` returns with it free. A full list is reported and kept; a text
  -- that is no network, or is the network 0.0.0.0, is refused and nothing changes; else the entry goes
  -- to the end of the list. The list never outgrows its 256 places.
  pub acl_add_entry_lem :
      length s.acl_entries ≤ 256
      → ((length s.acl_entries ≡ 256)
          × (acl_add_entry c (some text) flags (free s) ≡ done enomem (free s)))
        ⊎ ((length s.acl_entries < 256)
            × ((parse_network c (some text)).0 ≡ 0)
            × (acl_add_entry c (some text) flags (free s) ≡ done einval (free s)))
        ⊎ ((length with_entry.acl_entries ≤ 256)
            × ((parse_network c (some text)).0 ≢ 0)
            × (acl_add_entry c (some text) flags (free s) ≡ done success (free with_entry)))
  unfolding acl_add_entry
  acl_add_entry_lem fits = elim (Bool-cases (leb 256 (length s.acl_entries))) [
    | inl full ↦ inl (ground arith, rw full)
    | inr room ↦ elim (Bool-cases ((parse_network c (some text)).0 == 0)) [
      | inl bad ↦ inr (inl (ground arith, ground arith, rw (room, bad)))
      | inr good ↦ inr (
          inr (
            ground (arith, length-append s.acl_entries (entry_of ∷ [])),
            ground arith,
            added room good,
          ))
    ]
  ]

remove_entry-append :
    (net mask flags : ℕ) (es : List AclEntry)
    → remove_entry net mask es ≡ none
    → remove_entry net mask (es ++ record { ip = net; mask = mask; flags = flags } ∷ []) ≡ some es
unfolding remove_entry
remove_entry-append net mask flags [] h = ground arith
remove_entry-append net mask flags (e ∷ es) h =
    ground (arith, remove_entry-append net mask flags es)

-- With the mutex free, removing a network that was just added, and was not in the list before, brings
-- back the state before it was added.
pub acl_remove_entry-acl_add_entry :
    (c : Libc) (text : List ℕ) (flags : ℕ) (s : ModeState)
    → length s.acl_entries < 256
    → (parse_network c (some text)).0 ≢ 0
    → remove_entry (parse_network c (some text)).0 (parse_network c (some text)).1 s.acl_entries
      ≡ none
    → (acl_add_entry c (some text) flags (free s) ≡ done success (free (with_entry c text flags s)))
      × (acl_remove_entry c (some text) (free (with_entry c text flags s)) ≡ done success (free s))
unfolding acl_remove_entry
acl_remove_entry-acl_add_entry c text flags s room good absent = (
  added c text flags s (ground arith) nonzero,
  rw (
    nonzero,
    finish_removal,
    remove_entry-append (parse_network c (some text)).0 (parse_network c (some text)).1 flags
        s.acl_entries absent,
  ),
)
  where
    nonzero : ((parse_network c (some text)).0 == 0) ≡ false
    nonzero = ground arith
