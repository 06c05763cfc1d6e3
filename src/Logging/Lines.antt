-- ===== src/Logging/Lines.antt =====
-- What src/utils/reeact_log.c writes.
use reeact_v.Prelude.{
  ℕ, ◌<◌, ◌≡◌, refl, sym, ap, ◌∙◌, arith, List, [], ◌∷◌, ◌++◌, ◌==◌, ltb, if◌then◌else◌, length,
  true,
}
use mathlib.Core.List.{append_assoc, append-nil}
use reeact_v.Topology.Outcome.{Outcome, ok, undefined, bind, get}
use reeact_v.Logging.{
  Runtime, Log, fprintf, reeact_print_prefix, reeact_dprintf, reeact_log_err, reeact_log_errx,
  LogCall, dprintf, log_err, log_errx, with_func, logerr, logerrx, log_call, log_calls,
}
use reeact_v.Logging.Format.{Directive, char, d, s, Arg, int, str, signed, format}

-- The process that has logged first, or logs now.
abbrev pub owner : Runtime → Log → ℕ
owner r l = if l.pid == 0 then r.getpid else l.pid

-- "pid name: "
abbrev pub prefix : Runtime → (pid : ℕ) → List ℕ
prefix r pid = signed pid ++ (b' ' ∷ (r.program_invocation_short_name ++ (b':' ∷ b' ' ∷ [])))

-- ` message(errno)`
abbrev pub system_message : Runtime → (errno : ℕ) → List ℕ
system_message r errno = r.sys_errlist.cell errno ++ (b'(' ∷ (signed errno ++ (b')' ∷ b'\n' ∷ [])))

module _ (r : Runtime) where
  -- What `errno` is behind a call: the prefix is one write, each message another.
  abbrev pub errno_behind : LogCall → (errno : ℕ) → ℕ
  errno_behind (dprintf fmt args) errno = r.errno_after (r.errno_after errno)
  errno_behind (log_err fmt args) errno = r.errno_after (r.errno_after errno)
  errno_behind (log_errx fmt args) errno = r.errno_after (r.errno_after (r.errno_after errno))

  -- What a call that has written the bytes leaves.
  pub record Wrote (l : Log) (bytes : List ℕ) (errno : ℕ) (l' : Log) : Type 0 where
    pub by : l'.pid ≡ owner r l
    pub written : l'.stderr ≡ l.stderr ++ bytes
    pub errno_left : l'.errno ≡ errno

  abbrev printed : Log → List ℕ → Log
  printed l bytes = record l { errno = r.errno_after l.errno; stderr = l.stderr ++ bytes }

  fprintf_lem :
      (fmt : List Directive) (args : List Arg) {bytes : List ℕ} (l : Log)
      → format fmt args ≡ ok bytes
      → fprintf r fmt args l ≡ ok (length bytes, printed l bytes)
  unfolding fprintf bind
  fprintf_lem fmt args l e = rw e refl

  abbrev prefixed : Log → Log
  prefixed l = record {
    pid = owner r l;
    errno = r.errno_after l.errno;
    stderr = l.stderr ++ prefix r (owner r l);
  }

  prefix_lem : (l : Log) → reeact_print_prefix r l ≡ ok (prefixed l)
  unfolding reeact_print_prefix bind fprintf format
  prefix_lem l = refl

  -- The message of one call: its own, and that of the system for `errno` at the entry.
  abbrev pub body : LogCall → (bytes : List ℕ) → (errno : ℕ) → List ℕ
  body (dprintf fmt args) bytes errno = bytes
  body (log_err fmt args) bytes errno = bytes
  body (log_errx fmt args) bytes errno = bytes ++ system_message r errno

  abbrev pub call_format : LogCall → Outcome (List ℕ)
  call_format (dprintf fmt args) = format fmt args
  call_format (log_err fmt args) = format fmt args
  call_format (log_errx fmt args) = format fmt args

  -- The system has a message for `errno`, where the call asks for it.
  abbrev pub Known : LogCall → (errno : ℕ) → Type 0
  Known (dprintf fmt args) errno = Unit
  Known (log_err fmt args) errno = Unit
  Known (log_errx fmt args) errno = errno < r.sys_errlist.size

  plain_lem :
      (fmt : List Directive) (args : List Arg) {bytes : List ℕ} (l : Log)
      → format fmt args ≡ ok bytes
      → (l' : Log) × (bind (reeact_print_prefix r l) (fprintf r fmt args) ≡ ok (length bytes, l'))
        × Wrote l (prefix r (owner r l) ++ bytes) (r.errno_after (r.errno_after l.errno)) l'
  unfolding bind
  plain_lem fmt args {bytes} l e = (
    printed (prefixed l) bytes,
    rw (prefix_lem l) (fprintf_lem fmt args (prefixed l) e),
    record {
      by = refl;
      written = append_assoc l.stderr (prefix r (owner r l)) bytes;
      errno_left = refl;
    },
  )

  abbrev system_format : List Directive
  system_format = s ∷ char b'(' ∷ d ∷ char b')' ∷ char b'\n' ∷ []

  abbrev append_system : (errno : ℕ) → Log → Outcome (ℕ × Log)
  append_system errno l =
      bind (get r.sys_errlist errno)
        λ message. fprintf r system_format (str message ∷ int errno ∷ []) l

  -- After the user's message comes the system's.
  errx_lem :
      (fmt : List Directive) (args : List Arg) {bytes : List ℕ} (l : Log)
      → format fmt args ≡ ok bytes
      → l.errno < r.sys_errlist.size
      → (l' : Log) × (reeact_log_errx r fmt args l ≡ ok (length (system_message r l.errno), l'))
        × Wrote l
            (prefix r (owner r l) ++ (bytes ++ system_message r l.errno))
            (r.errno_after (r.errno_after (r.errno_after l.errno)))
            l'
  unfolding reeact_log_errx bind get format
  errx_lem fmt args {bytes} l e known =
      let own = printed (prefixed l) bytes in
      let last = printed own (system_message r l.errno) in
      let fits : ltb l.errno r.sys_errlist.size ≡ true = ground (arith, known) in
      let start = prefix r (owner r l) in
      (
        last,
        ap (λ o. bind o λ l'. bind (fprintf r fmt args l') λ (_, l''). append_system l.errno l'')
              (prefix_lem l)
            ∙ ap (λ o. bind o λ (_, l''). append_system l.errno l'')
                (fprintf_lem fmt args (prefixed l) e)
            ∙ ap
                (λ b.
                  bind (if b then ok (r.sys_errlist.cell l.errno) else undefined)
                    λ message. fprintf r system_format (str message ∷ int l.errno ∷ []) own)
                fits
            ∙ fprintf_lem system_format (str (r.sys_errlist.cell l.errno) ∷ int l.errno ∷ []) own
                refl,
        record {
          by = refl;
          written =
              append_assoc (l.stderr ++ start) bytes (system_message r l.errno)
              ∙ append_assoc l.stderr start (bytes ++ system_message r l.errno);
          errno_left = refl;
        },
      )

-- What one call leaves.
record Logged (r : Runtime) (c : LogCall) (bytes : List ℕ) (l l' : Log) : Type 0 where
  ret : ℕ
  done : log_call r c l ≡ ok (ret, l')
  by : l'.pid ≡ owner r l
  written : l'.stderr ≡ l.stderr ++ (prefix r (owner r l) ++ body r c bytes l.errno)
  errno_left : l'.errno ≡ errno_behind r c l.errno

logged_lem :
    (r : Runtime) (c : LogCall) (l : Log) {bytes : List ℕ}
    → call_format r c ≡ ok bytes
    → Known r c l.errno
    → (l' : Log) × Logged r c bytes l l'
unfolding log_call reeact_dprintf reeact_log_err
logged_lem r (dprintf fmt args) l e known =
    let (l', done, w) = plain_lem r fmt args l e in
    (l', record { ret = _; done = done; by = w.by; written = w.written; errno_left = w.errno_left })
logged_lem r (log_err fmt args) l e known =
    let (l', done, w) = plain_lem r fmt args l e in
    (l', record { ret = _; done = done; by = w.by; written = w.written; errno_left = w.errno_left })
logged_lem r (log_errx fmt args) l e known =
    let (l', done, w) = errx_lem r fmt args l e known in
    (l', record { ret = _; done = done; by = w.by; written = w.written; errno_left = w.errno_left })

-- A call of reeact_dprintf, reeact_log_err or reeact_log_errx whose format fits its arguments
-- writes the process id (that of the process that logged first, or of this one if none has), the
-- name of the program and the formatted message; reeact_log_errx, with errno at its entry in the
-- list of system messages, writes after it the message and number of that errno, whatever the
-- writes before it leave in errno.
pub log_call_lem :
    (r : Runtime) (c : LogCall) (l : Log) {bytes : List ℕ}
    → call_format r c ≡ ok bytes
    → Known r c l.errno
    → (ret : ℕ) × (l' : Log) × (log_call r c l ≡ ok (ret, l'))
      × (l'.pid ≡ owner r l)
      × (l'.stderr ≡ l.stderr ++ (prefix r (owner r l) ++ body r c bytes l.errno))
log_call_lem r c l e known =
    let (l', p) = logged_lem r c l e known in (p.ret, l', p.done, p.by, p.written)

-- Every call's format fits its arguments.
abbrev pub AllFormatted : Runtime → List LogCall → Type 0
AllFormatted r [] = Unit
AllFormatted r (c ∷ calls) =
    ((bytes : List ℕ) × (call_format r c ≡ ok bytes)) × AllFormatted r calls

-- The output of calls that find `errno`, in the name of process `pid`: for each call the prefix and
-- its message.
abbrev pub lines :
    (r : Runtime) → (pid : ℕ) → (calls : List LogCall) → (errno : ℕ) → AllFormatted r calls → List ℕ
lines r pid [] errno formatted = []
lines r pid (c ∷ calls) errno ((bytes, _), formatted) =
    (prefix r pid ++ body r c bytes errno) ++ lines r pid calls (errno_behind r c errno) formatted

-- Where the owner logs, it stays the owner.
same_owner : (r : Runtime) (l l' : Log) → l'.pid ≡ owner r l → owner r l' ≡ owner r l
same_owner r l l' by = ground (arith, by)

covered-Known :
    (r : Runtime) (c : LogCall) (errno : ℕ) → errno < r.sys_errlist.size → Known r c errno
covered-Known r (dprintf fmt args) errno lt = tt
covered-Known r (log_err fmt args) errno lt = tt
covered-Known r (log_errx fmt args) errno lt = lt

behind_covered :
    (r : Runtime) (c : LogCall) (errno : ℕ)
    → ((errno : ℕ) → r.errno_after errno < r.sys_errlist.size)
    → errno_behind r c errno < r.sys_errlist.size
behind_covered r (dprintf fmt args) errno covers = covers (r.errno_after errno)
behind_covered r (log_err fmt args) errno covers = covers (r.errno_after errno)
behind_covered r (log_errx fmt args) errno covers = covers (r.errno_after (r.errno_after errno))

-- Where errno at the start and every errno that a write leaves have a system message, any sequence
-- of logging calls whose formats fit their arguments ends, and writes for each call in turn the
-- prefix with the same process id (that of the process that logged first, whichever process runs),
-- its formatted message and, for reeact_log_errx, the message and number of the errno that the
-- call finds, which is what the writes of the calls before it have left.
pub log_calls_lem :
    (r : Runtime) (calls : List LogCall) (l : Log)
    → ((errno : ℕ) → r.errno_after errno < r.sys_errlist.size)
    → l.errno < r.sys_errlist.size
    → (formatted : AllFormatted r calls)
    → (l' : Log) × (log_calls r calls l ≡ ok l')
      × (l'.stderr ≡ l.stderr ++ lines r (owner r l) calls l.errno formatted)
unfolding log_calls bind
log_calls_lem r [] l covers known formatted = (l, refl, sym (append-nil l.stderr))
log_calls_lem r (c ∷ calls) l covers known ((bytes, e), formatted) =
    let (l', p) = logged_lem r c l e (covered-Known r c l.errno known) in
    let still : l'.errno < r.sys_errlist.size =
      omega (arith, p.errno_left, behind_covered r c l.errno covers) in
    let (l'', done, written) = log_calls_lem r calls l' covers still formatted in
    let rest = lines r (owner r l) calls (errno_behind r c l.errno) formatted in
    (
      l'',
      ap (λ o. bind o λ (_, l'). log_calls r calls l') p.done ∙ done,
      written
          ∙ ap (λ pid. l'.stderr ++ lines r pid calls l'.errno formatted) (same_owner r l l' p.by)
          ∙ ap (λ errno. l'.stderr ++ lines r (owner r l) calls errno formatted) p.errno_left
          ∙ ap (λ stderr. stderr ++ rest) p.written
          ∙ append_assoc l.stderr (prefix r (owner r l) ++ body r c bytes l.errno) rest,
    )

-- An error that is reported in some function, by either macro.
pub logerr_lem :
    (r : Runtime) (func : List ℕ) (fmt : List Directive) (args : List Arg) (l : Log)
    {bytes : List ℕ}
    → format fmt args ≡ ok bytes
    → l.errno < r.sys_errlist.size
    → ((ret : ℕ) × (l' : Log) × (log_call r (logerr func fmt args) l ≡ ok (ret, l'))
        × (l'.stderr ≡ l.stderr ++ (prefix r (owner r l) ++ (func ++ (b':' ∷ b' ' ∷ bytes)))))
      × ((ret : ℕ) × (l' : Log) × (log_call r (logerrx func fmt args) l ≡ ok (ret, l'))
          × (l'.stderr
              ≡ l.stderr
                ++ (prefix r (owner r l)
                    ++ ((func ++ (b':' ∷ b' ' ∷ bytes)) ++ system_message r l.errno))))
unfolding logerr logerrx format
logerr_lem r func fmt args l {bytes} e known =
    let fits : format (with_func fmt) (str func ∷ args) ≡ ok (func ++ (b':' ∷ b' ' ∷ bytes)) =
      rw e refl in
    let (ret, l', done, by, written) =
      log_call_lem r (log_err (with_func fmt) (str func ∷ args)) l fits tt in
    let (ret', l'', done', by', written') =
      log_call_lem r (log_errx (with_func fmt) (str func ∷ args)) l fits known in
    ((ret, l', done, written), (ret', l'', done', written'))
