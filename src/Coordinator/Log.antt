-- ===== src/Coordinator/Log.antt =====
-- internal/coordinator/coordinator.go: `openLog` and `stdoutUntilBroken`. A write to stdout or to
-- the file takes the whole line or fails, as the world answers. By the rules of Go's os/signal, a
-- write to a broken pipe at stdout ends a process that does not ignore SIGPIPE.
use sccache_dist_action.Common.{
  if◌then◌else◌, length, All, Text, ℕ, ◌≡◌, refl, ◌≢◌, Bool, true, false, Option, none, some, List,
  [], ◌∷◌, ◌++◌, map, append-nil, append_assoc,
}

-- What a write to stdout meets; `broken_pipe` is EPIPE.
pub data Answer : Type 0 where
  taken broken_pipe other_error : Answer

pub record Stdout : Type 0 where
  pub broken : Bool
  pub shown : List Text

-- A line, what stdout answers to it, and whether the file would fail on it.
pub record Line : Type 0 where
  pub text : Text
  pub stdout_answer : Answer
  pub file_fails : Bool

-- What the process does about SIGPIPE, and whether that has ended it.
pub record Process : Type 0 where
  pub ignores_sigpipe : Bool
  pub killed : Bool

-- Go's `os.Stdout.Write` in a process: whether an error is returned, and the process.
unfoldable pub os_write : Answer → Process → Bool × Process
os_write taken p = (false, p)
os_write broken_pipe p = (true, if p.ignores_sigpipe then p else record p { killed = true })
os_write other_error p = (true, p)

-- What `Write` returns, its error, the writer behind it, and the process.
pub record Written : Type 0 where
  pub count : ℕ
  pub failed : Bool
  pub out : Stdout
  pub process : Process

abbrev after_write : Text → Stdout → Bool → Stdout
after_write text s true = record s { broken = true }
after_write text s false = record s { shown = s.shown ++ text ∷ [] }

-- `stdoutUntilBroken.Write`
unfoldable pub write : Line → Stdout → Process → Written
unfolding os_write
write l s p =
    if s.broken
    then record { count = length l.text; failed = false; out = s; process = p }
    else record {
      count = length l.text;
      failed = false;
      out = after_write l.text s (os_write l.stdout_answer p).0;
      process = (os_write l.stdout_answer p).1;
    }

-- Where the log goes: the file, if it could be opened, and stdout; and the process that writes it.
pub record Log : Type 0 where
  pub file : Option (List Text)
  pub out : Stdout
  pub process : Process

-- `signal.Ignore(syscall.SIGPIPE)`
abbrev ignore_sigpipe : Process → Process
ignore_sigpipe p = record p { ignores_sigpipe = true }

-- `openLog`: the writer, and the path that the log-file output names.
unfoldable pub open_log : Text → Bool → Process → Log × Text
open_log path opens p =
    let p' = ignore_sigpipe p in
    let out : Stdout = record { broken = false; shown = [] } in
    if opens
    then (record { file = some []; out = out; process = p' }, path)
    else (record { file = none; out = out; process = p' }, [])

write_both : Line → Option (List Text) → Stdout → Process → Log
unfolding write
write_both l none out p = record {
  file = none;
  out = (write l out p).out;
  process = (write l out p).process;
}
write_both l (some lines) out p =
    if l.file_fails then record { file = some lines; out = out; process = p } else record {
      file = some (lines ++ l.text ∷ []);
      out = (write l out p).out;
      process = (write l out p).process;
    }

-- A write to what `openLog` returned: the io.MultiWriter stops at the first writer that fails. A
-- process that has been ended writes nothing.
unfoldable pub log_write : Line → Log → Log
unfolding write_both
log_write l log = if log.process.killed then log else write_both l log.file log.out log.process

unfoldable pub log_all : List Line → Log → Log
unfolding log_write
log_all [] log = log
log_all (l ∷ ls) log = log_all ls (log_write l log)

abbrev lines_of : List Line → List Text
lines_of = map (λ l. l.text)

abbrev pub FileTakes : Line → Type 0
FileTakes l = l.file_fails ≡ false

-- Both writers take the line.
abbrev pub BothTake : Line → Type 0
BothTake l = (l.file_fails ≡ false) × (l.stdout_answer ≡ taken)

-- A process that runs and ignores SIGPIPE.
abbrev pub ignoring : Process
ignoring = record { ignores_sigpipe = true; killed = false }

abbrev pub logged : List Text → Bool → List Text → Log
logged lines broken shown = record {
  file = some lines;
  out = record { broken = broken; shown = shown };
  process = ignoring;
}

log_all-healthy :
    (ls : List Line) (lines shown : List Text)
    → All BothTake ls
    → log_all ls (logged lines false shown)
      ≡ logged (lines ++ lines_of ls) false (shown ++ lines_of ls)
unfolding log_all
log_all-healthy [] lines shown h = rw (append-nil lines, append-nil shown) refl
log_all-healthy (l ∷ ls) lines shown ((f, s), h) =
    rw (f, s, log_all-healthy ls (lines ++ l.text ∷ []) (shown ++ l.text ∷ []) h)
      (rw
        (
          append_assoc lines (l.text ∷ []) (lines_of ls),
          append_assoc shown (l.text ∷ []) (lines_of ls),
        )
        refl)

log_all-broken :
    (ls : List Line) (lines shown : List Text)
    → All FileTakes ls
    → log_all ls (logged lines true shown) ≡ logged (lines ++ lines_of ls) true shown
unfolding log_all
log_all-broken [] lines shown h = rw (append-nil lines) refl
log_all-broken (l ∷ ls) lines shown (f, h) =
    rw (f, log_all-broken ls (lines ++ l.text ∷ []) shown h)
      (rw (append_assoc lines (l.text ∷ []) (lines_of ls)) refl)

log_all-append :
    (ls ms : List Line) (log : Log) → log_all (ls ++ ms) log ≡ log_all ms (log_all ls log)
unfolding log_all
log_all-append [] ms log = refl
log_all-append (l ∷ ls) ms log = log_all-append ls ms (log_write l log)

lines_of-append : (ls ms : List Line) → lines_of (ls ++ ms) ≡ lines_of ls ++ lines_of ms
lines_of-append [] ms = refl
lines_of-append (l ∷ ls) ms = rw (lines_of-append ls ms) refl

-- An error, by a broken pipe or another one, leaves a process that ignores SIGPIPE as it is.
os_write-ignoring : (a : Answer) → a ≢ taken → os_write a ignoring ≡ (true, ignoring)
unfolding os_write
os_write-ignoring taken h = absurd (h refl)
os_write-ignoring broken_pipe h = refl
os_write-ignoring other_error h = refl

-- The line on which stdout breaks, and those behind it.
log_all-breaks :
    (l : Line) (later : List Line) (lines shown : List Text)
    → FileTakes l
    → l.stdout_answer ≢ taken
    → All FileTakes later
    → log_all (l ∷ later) (logged lines false shown)
      ≡ logged (lines ++ lines_of (l ∷ later)) true shown
unfolding log_all
log_all-breaks l later lines shown f s hl =
    rw
      (f, os_write-ignoring l.stdout_answer s, log_all-broken later (lines ++ l.text ∷ []) shown hl)
      (rw (append_assoc lines (l.text ∷ []) (lines_of later)) refl)

-- With the log file open and taking every line, it holds every line, in order, whatever happens to
-- stdout, a broken pipe included, and the process lives, whatever it did about SIGPIPE before. Stdout
-- has all lines up to the first that it fails on, and gets no more after that, even where it would
-- take some again.
pub log_survives_stdout :
    (path : Text) (before later : List Line) (l : Line) (ignored : Bool)
    → All BothTake before
    → FileTakes l
    → l.stdout_answer ≢ taken
    → All FileTakes later
    → log_all
        (before ++ l ∷ later)
        (open_log path true (record { ignores_sigpipe = ignored; killed = false })).0
      ≡ record {
        file = some (lines_of (before ++ l ∷ later));
        out = record { broken = true; shown = lines_of before };
        process = record { ignores_sigpipe = true; killed = false };
      }
unfolding open_log
log_survives_stdout path before later l ignored hb f s hl =
    rw
      (
        log_all-append before (l ∷ later) (logged [] false []),
        log_all-healthy before [] [] hb,
        log_all-breaks l later (lines_of before) (lines_of before) f s hl,
        lines_of-append before (l ∷ later),
      )
      refl
