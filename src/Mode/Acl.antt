-- ===== src/Mode/Acl.antt =====
-- The access list of mode_handler.c.
pub mod Laws
pub mod Entries
use dragon_ntpd.Base.{
  ℕ, ◌/◌, ◌%◌, Bool, true, false, not, ◌&&◌, ◌||◌, List, [], ◌∷◌, ◌++◌, Option, none, some, ltb,
  leb, ◌==◌, if◌then◌else◌, length,
}
use dragon_ntpd.Base.Lock.{M, ◌>>=◌, ◌>>◌, pure, lock, unlock, get, modify}
use dragon_ntpd.Mode.{
  Result, success, einval, enomem, enoent, AclEntry, ModeState, ModeConfig, max_acl_entries,
}
use dragon_ntpd.Mode.Network.{Libc, parse_network, parse_ip, ip_in_network}

unfoldable pub acl_add_entry : Libc → Option (List ℕ) → ℕ → M ModeState Result
acl_add_entry c none flags = pure einval
acl_add_entry c (some network) flags = do
  lock
  s ← get
  (if leb max_acl_entries (length s.acl_entries)
      then (do unlock; pure enomem)
      else let (net, mask) = parse_network c (some network) in
        if net == 0 then (do unlock; pure einval) else (do
          let entry : AclEntry = record { ip = net; mask = mask; flags = flags }
          modify (λ s. record s { acl_entries = s.acl_entries ++ entry ∷ [] })
          unlock
          pure success))

-- The list without the first entry for the network, or none where there is no such entry.
unfoldable pub remove_entry : ℕ → ℕ → List AclEntry → Option (List AclEntry)
remove_entry net mask [] = none
remove_entry net mask (e ∷ es) =
    let rest = remove_entry net mask es in
    if (e.ip == net) && (e.mask == mask)
    then some es
    else elim rest [ none ↦ none | some es' ↦ some (e ∷ es') ]

-- The end of the loop, or its early return.
abbrev pub finish_removal : Option (List AclEntry) → M ModeState Result
finish_removal none = (do unlock; pure enoent)
finish_removal (some es) = (do modify (λ s. record s { acl_entries = es }); unlock; pure success)

unfoldable pub acl_remove_entry : Libc → Option (List ℕ) → M ModeState Result
acl_remove_entry c none = pure einval
acl_remove_entry c (some network) =
    let (net, mask) = parse_network c (some network) in
    if net == 0
    then pure einval
    else (do lock; s ← get; finish_removal (remove_entry net mask s.acl_entries))

-- The loop: the first entry whose network holds the address.
unfoldable pub find_entry : ℕ → List AclEntry → Option AclEntry
find_entry ip [] = none
find_entry ip (e ∷ es) =
    let rest = find_entry ip es in if ip_in_network ip e.ip e.mask then some e else rest

unfoldable pub flags_for : ModeConfig → List AclEntry → ℕ → ℕ
flags_for config es ip = elim (find_entry ip es) [
  | none ↦ config.acl_default_policy
  | some e ↦ e.flags
]

-- The `switch`: NOQUERY is bit 0 of the flags, NOSERVE bit 1.
unfoldable pub mode_permitted : ℕ → ℕ → Bool
mode_permitted flags packet_mode =
    if (packet_mode == 6) || (packet_mode == 7)
    then flags % 2 == 0
    else if (packet_mode == 3) || (packet_mode == 4) || (packet_mode == 1) || (packet_mode == 2)
    then flags / 2 % 2 == 0
    else if packet_mode == 5
    then flags / 2 % 2 == 0
    else false

abbrev pub is_symmetric : ℕ → Bool
is_symmetric packet_mode = (packet_mode == 1) || (packet_mode == 2)

-- A look at the configuration between two other sections under the mutex.
abbrev pub peek : M ModeState ModeConfig
peek = do lock; s ← get; unlock; pure s.config

-- The two early returns: whether the configuration lets the packet's mode pass.
unfoldable pub mode_allowed : ℕ → M ModeState Bool
mode_allowed packet_mode = do
  symmetric ←
      (if is_symmetric packet_mode
        then (do config ← peek; pure (not (config.enable_symmetric_mode == 0)))
        else pure true)
  (if not symmetric
      then pure false
      else if packet_mode == 5
      then (do config ← peek; pure (not (config.enable_broadcast == 0)))
      else pure true)

unfoldable pub acl_check_client : Libc → Option (List ℕ) → ℕ → M ModeState Bool
acl_check_client c none packet_mode = pure false
acl_check_client c (some client_ip) packet_mode =
    let ip = parse_ip c (some client_ip) in
    if ip == 0 then pure false else (do
      allowed ← mode_allowed packet_mode
      (if not allowed then pure false else (do
        lock
        s ← get
        let result = mode_permitted (flags_for s.config s.acl_entries ip) packet_mode
        unlock
        pure result)))

unfoldable pub acl_get_client_flags : Libc → Option (List ℕ) → M ModeState ℕ
acl_get_client_flags c none = do s ← get; pure s.config.acl_default_policy
acl_get_client_flags c (some client_ip) = do
  let ip = parse_ip c (some client_ip)
  s ← get
  (if ip == 0
      then pure s.config.acl_default_policy
      else (do lock; s' ← get; unlock; pure (flags_for s'.config s'.acl_entries ip)))
