-- ===== src/Listeners/Families.antt =====
-- Which families of addresses the options -4 and -6 give the two sockets of socket.c.
use dragon_ntpd.Base.{ℕ, ◌≡◌, refl, sym, subst, ap, ◌∙◌, List, ◌∷◌, Option, none, some}
use dragon_ntpd.Base.Int.{ℤ}
use dragon_ntpd.Base.Lock.{done, free}
use dragon_ntpd.CommandLine.{CliConfig, success, parse_arguments}
use dragon_ntpd.CommandLine.Exclusive.{Among, four-family_preference, six-family_preference}
use dragon_ntpd.Listeners.{
  Call, opened, Family, ipv4, ipv6, dgram, Kernel, network4_create_socket, network6_create_socket,
  create_udp_socket,
}
use dragon_ntpd.Listeners.Created.{
  Created, nothing, listening, closed_once, closed_twice, udp_family, create_udp_socket-Created,
}
use dragon_ntpd.Listeners.Endpoints.{get_sync_socket}
use dragon_ntpd.Mode.ConfigFile.{Integer, codes}

-- The option that asks for a family alone.
abbrev pub option : Family → List ℕ
option ipv4 = codes "-4"
option ipv6 = codes "-6"

abbrev pub other : Family → Family
other ipv4 = ipv6
other ipv6 = ipv4

-- What the option makes of `family_preference`.
abbrev preference : Family → ℕ
preference ipv4 = 1
preference ipv6 = 2

parse_arguments-preference :
    (strtol : List ℕ → Integer) (c : CliConfig) (name : List ℕ) (args : List (List ℕ)) (f : Family)
    → Among (option f) args
    → (parse_arguments strtol c (name ∷ args)).1 ≡ success
    → (parse_arguments strtol c (name ∷ args)).0.family_preference ≡ preference f
parse_arguments-preference strtol c name args ipv4 a e =
    four-family_preference strtol c name args a e
parse_arguments-preference strtol c name args ipv6 a e =
    six-family_preference strtol c name args a e

udp_family-preference :
    (cli : CliConfig) (f : Family) → cli.family_preference ≡ preference f → udp_family cli ≡ other f
udp_family-preference cli ipv4 e = rw e refl
udp_family-preference cli ipv6 e = rw e refl

Created-some :
    (k : Kernel) (f : Family) (h : List Call) (r : Option ℕ × List Call) (sock : ℕ)
    → Created k f h r
    → r.0 ≡ some sock
    → r.1 ≡ opened f dgram sock ∷ h
Created-some k f h r sock nothing e = absurd cc
Created-some k f h r sock (listening s made) e = cc
Created-some k f h r sock (closed_once s made) e = absurd cc
Created-some k f h r sock (closed_twice s made) e = absurd cc

get_sync_socket-preference :
    (k : Kernel) (cli : CliConfig) (h : List Call) (tcp : Option ℕ) (f : Family) (s : ℕ)
    → cli.family_preference ≡ preference f
    → k.socket h f dgram ≡ some s
    → get_sync_socket k cli (free (record { sync_sock = none; tcp_sock = tcp; calls = h }))
      ≡ done
          (some s)
          (free (record { sync_sock = some s; tcp_sock = tcp; calls = opened f dgram s ∷ h }))
unfolding get_sync_socket network4_create_socket network6_create_socket
get_sync_socket-preference k cli h tcp ipv4 s p e = rw (p, e) refl
get_sync_socket-preference k cli h tcp ipv6 s p e = rw (p, e) refl

-- A command line with -4 or -6 that is accepted gives the two sockets different families, and that of
-- the requests the wrong one: where `create_udp_socket` returns a socket, it is one of the family
-- that was not asked for, and a `get_sync_socket` without a socket creates one, where the system has
-- one, of the family that was.
pub create_udp_socket-parse_arguments :
    (strtol : List ℕ → Integer) (c : CliConfig) (name : List ℕ) (args : List (List ℕ)) (f : Family)
    (k : Kernel) (port : ℤ) (h h' : List Call) (tcp : Option ℕ) (sock s : ℕ)
    → Among (option f) args
    → (parse_arguments strtol c (name ∷ args)).1 ≡ success
    → create_udp_socket k (parse_arguments strtol c (name ∷ args)).0 port h ≡ (some sock, h')
    → k.socket h' f dgram ≡ some s
    → (h' ≡ opened (other f) dgram sock ∷ h)
      × (get_sync_socket k
            (parse_arguments strtol c (name ∷ args)).0
            (free (record { sync_sock = none; tcp_sock = tcp; calls = h' }))
          ≡ done
              (some s)
              (free (record { sync_sock = some s; tcp_sock = tcp; calls = opened f dgram s ∷ h' })))
create_udp_socket-parse_arguments strtol c name args f k port h h' tcp sock s a e made next =
    let cli = (parse_arguments strtol c (name ∷ args)).0 in
    let p = parse_arguments-preference strtol c name args f a e in
    let r = create_udp_socket k cli port h in
    (
      sym (ap (λ x. x.1) made)
          ∙ subst (λ g. r.1 ≡ opened g dgram sock ∷ h) (udp_family-preference cli f p)
              (Created-some k (udp_family cli) h r sock (create_udp_socket-Created k cli port h)
                (ap (λ x. x.0) made)),
      get_sync_socket-preference k cli h' tcp f s p next,
    )
