-- ===== src/Logging/Examples.antt =====
-- The theorems on src/utils/reeact_log.c at a program "a" of process 42, whose C library knows two
-- errors, and which leaves error 1 behind each write.
use reeact_v.Prelude.{ℕ, ◌≡◌, refl, arith, [], ◌∷◌, ◌++◌, ◌==◌, if◌then◌else◌}
use reeact_v.Topology.Outcome.{ok}
use reeact_v.Logging.{Runtime, Log, LogCall, log_errx, log_call, log_calls}
use reeact_v.Logging.Format.{char, d, int, format}
use reeact_v.Logging.Lines.{
  prefix, system_message, AllFormatted, lines, log_call_lem, log_calls_lem,
}

abbrev runtime : Runtime
runtime = record {
  getpid = 42;
  program_invocation_short_name = b'a' ∷ [];
  sys_errlist = record {
    size = 2;
    cell = λ errno. if errno == 0 then b'o' ∷ b'k' ∷ [] else b'n' ∷ b'o' ∷ [];
  };
  errno_after = λ errno. 1;
}

abbrev quiet : Log
quiet = record { pid = 0; errno = 0; stderr = [] }

-- "x7" by `reeact_log_errx`, with no error
abbrev call : LogCall
call = log_errx (char b'x' ∷ d ∷ []) (int 7 ∷ [])

-- "42 a: x7ok(0)\n"
written_result :
    (ret : ℕ) × (l' : Log) × (log_call runtime call quiet ≡ ok (ret, l'))
    × (l'.stderr
        ≡ b'4' ∷ b'2' ∷ b' ' ∷ b'a' ∷ b':' ∷ b' ' ∷ b'x' ∷ b'7' ∷ b'o' ∷ b'k' ∷ b'(' ∷ b'0' ∷ b')'
          ∷ b'\n' ∷ [])
unfolding log_call
written_result = (_, _, refl, refl)

log_call_lem_example :
    (ret : ℕ) × (l' : Log) × (log_call runtime call quiet ≡ ok (ret, l'))
    × (l'.pid ≡ 42)
    × (l'.stderr ≡ prefix runtime 42 ++ ((b'x' ∷ b'7' ∷ []) ++ system_message runtime 0))
unfolding log_call
log_call_lem_example = log_call_lem runtime call quiet refl (omega arith)

-- After a fork the child, process 43, logs in the name of its parent.
abbrev child : Runtime
child = record runtime { getpid = 43 }

-- Its first call finds errno 0, its second the 1 that the writes have left.
abbrev both : AllFormatted child (call ∷ call ∷ [])
unfolding format
both = ((_, refl), ((_, refl), tt))

log_calls_lem_example :
    (l' : Log) × (log_calls child (call ∷ call ∷ []) (record quiet { pid = 42 }) ≡ ok l')
    × (l'.stderr ≡ lines child 42 (call ∷ call ∷ []) 0 both)
log_calls_lem_example =
    log_calls_lem child (call ∷ call ∷ []) (record quiet { pid = 42 }) (λ errno. omega arith)
      (omega arith) both
