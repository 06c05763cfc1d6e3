-- ===== src/Logging.antt =====
-- src/utils/reeact_log.c and the logging macros of src/utils/reeact_utils.h: what they write to
-- stderr, a stream whose writes succeed.
pub mod Format
pub mod Digits
pub mod Lines
mod Examples
use reeact_v.Prelude.{ℕ, Bool, length, List, [], ◌∷◌, ◌++◌, ◌==◌, if◌then◌else◌}
use reeact_v.Topology.Outcome.{Outcome, bind, Array, get}
use reeact_v.Logging.Format.{Directive, char, d, s, Arg, int, str, format}

-- The process, and what the C library gives it. A write may leave any number in `errno`.
pub record Runtime : Type 0 where
  pub getpid : ℕ
  pub program_invocation_short_name : List ℕ
  pub sys_errlist : Array (List ℕ)
  pub errno_after : (errno : ℕ) → ℕ

-- `pid`, `errno`, and the bytes that stderr has been given.
pub record Log : Type 0 where
  pub pid : ℕ
  pub errno : ℕ
  pub stderr : List ℕ

module _ (r : Runtime) where
  -- `fprintf(stderr, ...)` and `vfprintf(stderr, ...)`: the number of bytes
  unfoldable pub fprintf : List Directive → List Arg → Log → Outcome (ℕ × Log)
  unfolding bind format
  fprintf fmt args l = bind (format fmt args) λ bytes.
      Outcome.ok
        (length bytes, record l { errno = r.errno_after l.errno; stderr = l.stderr ++ bytes })

  unfoldable pub reeact_print_prefix : Log → Outcome Log
  unfolding bind fprintf
  reeact_print_prefix l =
      let l' : Log = record l { pid = if l.pid == 0 then r.getpid else l.pid } in
      bind
        (fprintf (d ∷ char b' ' ∷ s ∷ char b':' ∷ char b' ' ∷ [])
          (int l'.pid ∷ str r.program_invocation_short_name ∷ []) l')
        λ (_, l''). Outcome.ok l''

  unfoldable pub reeact_dprintf : List Directive → List Arg → Log → Outcome (ℕ × Log)
  unfolding bind reeact_print_prefix fprintf
  reeact_dprintf fmt args l = bind (reeact_print_prefix l) (fprintf fmt args)

  unfoldable pub reeact_log_err : List Directive → List Arg → Log → Outcome (ℕ × Log)
  unfolding bind reeact_print_prefix fprintf
  reeact_log_err fmt args l = bind (reeact_print_prefix l) (fprintf fmt args)

  -- with the message of the system for `errno` at the entry
  unfoldable pub reeact_log_errx : List Directive → List Arg → Log → Outcome (ℕ × Log)
  unfolding bind reeact_print_prefix fprintf get
  reeact_log_errx fmt args l =
      let err = l.errno in
      bind (reeact_print_prefix l) λ l'. bind (fprintf fmt args l') λ (_, l'').
        bind (get r.sys_errlist err) λ message.
          fprintf (s ∷ char b'(' ∷ d ∷ char b')' ∷ char b'\n' ∷ []) (str message ∷ int err ∷ []) l''

-- A call of one of the three functions.
pub data LogCall : Type 0 where
  dprintf log_err log_errx : (fmt : List Directive) (args : List Arg) → LogCall

-- The macros, which put the name of the calling function first. DPRINTF is there in a debug build
-- only; `dprintf` is run if its argument says so.
abbrev pub with_func : List Directive → List Directive
with_func fmt = s ∷ char b':' ∷ char b' ' ∷ fmt

unfoldable pub debug_print :
    (debug_build : Bool) (func : List ℕ) → List Directive → List Arg → List LogCall
debug_print debug_build func fmt args =
    if debug_build then dprintf (with_func fmt) (str func ∷ args) ∷ [] else []

unfoldable pub print_if : (debug : ℕ) (func : List ℕ) → List Directive → List Arg → List LogCall
print_if debug func fmt args =
    if debug == 0 then [] else dprintf (with_func fmt) (str func ∷ args) ∷ []

unfoldable pub logerr : (func : List ℕ) → List Directive → List Arg → LogCall
logerr func fmt args = log_err (with_func fmt) (str func ∷ args)

unfoldable pub logerrx : (func : List ℕ) → List Directive → List Arg → LogCall
logerrx func fmt args = log_errx (with_func fmt) (str func ∷ args)

unfoldable pub log_call : Runtime → LogCall → Log → Outcome (ℕ × Log)
unfolding reeact_dprintf reeact_log_err reeact_log_errx
log_call r (dprintf fmt args) l = reeact_dprintf r fmt args l
log_call r (log_err fmt args) l = reeact_log_err r fmt args l
log_call r (log_errx fmt args) l = reeact_log_errx r fmt args l

unfoldable pub log_calls : Runtime → List LogCall → Log → Outcome Log
unfolding bind log_call
log_calls r [] l = Outcome.ok l
log_calls r (c ∷ calls) l = bind (log_call r c l) λ (_, l'). log_calls r calls l'
