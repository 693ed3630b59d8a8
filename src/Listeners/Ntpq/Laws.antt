-- ===== src/Listeners/Ntpq/Laws.antt =====
-- What ntpq is answered, and what happens to the connections.
use dragon_ntpd.Base.{
  ℕ, ◌≡◌, refl, ap, ◌∙◌, true, List, [], ◌∷◌, ◌++◌, Option, none, some, ok, Bool, false,
}
use dragon_ntpd.Base.Int.{pos}
use dragon_ntpd.Base.Lock.{done, free, ◌>>=◌}
use dragon_ntpd.Daemon.{ClockState}
use dragon_ntpd.Listeners.{Call}
use dragon_ntpd.Listeners.Ntpq.{
  Command, ask_version, ask_associations, ask_sysinfo, quit, other, Reply, version, associations,
  accepted, association_status, command_of, reply_to, sent, sysinfo_with, handle_ntpq_request,
  Accepted, interrupted, failed, client,
}
use dragon_ntpd.Mode.ConfigFile.{codes}
use dragon_ntpd.Mode.Network.{same_text}
use dragon_ntpd.Threads.{System, usable}
use dragon_ntpd.Threads.Clock.{
  ClockThread, start_clock_thread, clock_thread_get_last_offset, clock_thread_get_last_correction,
}
use dragon_ntpd.Threads.Clock.Laws.{start_clock_thread-destroyed}

-- The four words differ in their first byte.
command_of-sysinfo : (rest : List ℕ) → command_of (codes "sysinfo" ++ rest) ≡ ask_sysinfo
unfolding command_of same_text
command_of-sysinfo rest = refl

append_assoc : (xs ys zs : List ℕ) → (xs ++ ys) ++ zs ≡ xs ++ ys ++ zs
append_assoc [] ys zs = refl
append_assoc (x ∷ xs) ys zs = ap (λ l. x ∷ l) (append_assoc xs ys zs)

-- The reply to a command, none where it is undefined.
abbrev reply_for : (ℕ → ℕ) → ClockThread → ClockState → Command → Option Reply
reply_for ntohl c s ask_version = some version
reply_for ntohl c s ask_associations = some (associations (association_status s))
reply_for ntohl c s ask_sysinfo =
    sysinfo_with ntohl s (clock_thread_get_last_offset c) (clock_thread_get_last_correction c)
reply_for ntohl c s quit = some accepted
reply_for ntohl c s other = some accepted

reply_to-free :
    (ntohl : ℕ → ℕ) (c : ClockThread) (s : ClockState) (command : Command)
    → reply_to ntohl c command (free s) ≡ done (reply_for ntohl c s command) (free s)
reply_to-free ntohl c s ask_version = refl
reply_to-free ntohl c s ask_associations = refl
reply_to-free ntohl c s ask_sysinfo = refl
reply_to-free ntohl c s quit = refl
reply_to-free ntohl c s other = refl

handle_ntpq_request-free :
    (ntohl : ℕ → ℕ) (c : ClockThread) (fd b : ℕ) (calls : List Call) (bs : List ℕ) (s : ClockState)
    → handle_ntpq_request ntohl c fd calls (some (b ∷ bs)) (free s)
      ≡ done (sent fd calls (reply_for ntohl c s (command_of ((b ∷ bs) ++ 0 ∷ [])))) (free s)
unfolding handle_ntpq_request
handle_ntpq_request-free ntohl c fd b calls bs s =
    rw (reply_to-free ntohl c s (command_of ((b ∷ bs) ++ 0 ∷ [])), ◌>>=◌) refl

-- Once `start_clock_thread` has returned 0, with the clock's mutex free to be taken, a request that
-- begins with "sysinfo" is undefined, whatever follows the word: it locks a mutex that was destroyed.
pub handle_ntpq_request-start_clock_thread :
    (ntohl : ℕ → ℕ) (sys : System) (c c' : ClockThread) (interval fd : ℕ) (calls : List Call)
    (rest : List ℕ) (s : ClockState)
    → start_clock_thread sys c interval ≡ some (c', ok)
    → handle_ntpq_request ntohl c' fd calls (some (codes "sysinfo" ++ rest)) (free s)
      ≡ done none (free s)
handle_ntpq_request-start_clock_thread ntohl sys c c' interval fd calls rest s e =
    let d = start_clock_thread-destroyed sys c c' interval (pos 0) ok e in
    handle_ntpq_request-free ntohl c' fd 115 calls (codes "ysinfo" ++ rest) s
    ∙ ap (λ command. done (sent fd calls (reply_for ntohl c' s command)) (free s))
        (ap command_of (append_assoc (codes "sysinfo") rest (0 ∷ []))
          ∙ command_of-sysinfo (rest ++ 0 ∷ []))
    ∙ ap
        (λ offset.
          done (sent fd calls (sysinfo_with ntohl s offset (clock_thread_get_last_correction c')))
            (free s))
        d.1

-- Whether there is a reply.
abbrev pub is_some : Option Reply → Bool
is_some none = false
is_some (some reply) = true

-- A command that reads what the clock thread keeps only where its mutex may be locked.
abbrev pub Answerable : ClockThread → Command → Type 0
Answerable c ask_sysinfo = usable c.clock_mutex ≡ true
Answerable c command = Unit {0}

-- Whether a client sent anything.
abbrev pub asks : Option (List ℕ) → Bool
asks none = false
asks (some []) = false
asks (some (b ∷ bs)) = true

abbrev pub AnswerableRequest : ClockThread → Option (List ℕ) → Type 0
AnswerableRequest c none = Unit {0}
AnswerableRequest c (some []) = Unit {0}
AnswerableRequest c (some (b ∷ bs)) = Answerable c (command_of ((b ∷ bs) ++ 0 ∷ []))

-- For each client that is accepted before `accept` fails, in order, whether it sent anything.
abbrev pub asking : List Accepted → List Bool
asking [] = []
asking (interrupted ∷ rest) = asking rest
asking (failed ∷ rest) = []
asking (client fd received ∷ rest) = asks received ∷ asking rest

abbrev pub AllAnswerable : ClockThread → List Accepted → Type 0
AllAnswerable c [] = Unit {0}
AllAnswerable c (interrupted ∷ rest) = AllAnswerable c rest
AllAnswerable c (failed ∷ rest) = Unit {0}
AllAnswerable c (client fd received ∷ rest) = AnswerableRequest c received × AllAnswerable c rest
