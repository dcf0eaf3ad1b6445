-- ===== src/SccacheDist/Files.antt =====
-- internal/sccachedist/sccachedist.go: `ConfPath`, `dir` and `WriteFile`.
use sccache_dist_action.Common.{
  ◌==◌, if◌then◌else◌, All, Text, codes, is_empty, ◌≡◌, refl, ap, ◌∙◌, ◌≢◌, Option, none, some,
  List, [], ◌∷◌, ◌++◌, arith,
}
use sccache_dist_action.Stdlib.Paths.{join}

-- `runner_temp` is RUNNER_TEMP, `temp_dir` is os.TempDir().
unfoldable pub conf_path : Text → Text → Text → Text
conf_path runner_temp temp_dir name =
    join (if is_empty runner_temp then temp_dir else runner_temp) name

-- `p[:i]` for the last `i` with `p[i] == '/'`, none if there is none.
pub before_last_slash : Text → Option Text
before_last_slash [] = none
before_last_slash (c ∷ p) = elim (before_last_slash p) [
  | some d ↦ some (c ∷ d)
  | none ↦ if c == b'/' then some [] else none
]

abbrev or_here : Option Text → Text
or_here (some d) = d
or_here none = codes "."

unfoldable pub dir : Text → Text
unfolding before_last_slash
dir p = or_here (before_last_slash p)

-- No slash.
abbrev pub IsName : Text → Type 0
IsName = All (λ c. c ≢ b'/')

before_last_slash-name : (name : Text) → IsName name → before_last_slash name ≡ none
unfolding before_last_slash
before_last_slash-name [] h = refl
before_last_slash-name (c ∷ name) (h, hs) = rw (before_last_slash-name name hs) (ground arith)

before_last_slash-join :
    (parent name : Text) → IsName name → before_last_slash (parent ++ b'/' ∷ name) ≡ some parent
unfolding before_last_slash
before_last_slash-join [] name h = rw (before_last_slash-name name h) refl
before_last_slash-join (c ∷ parent) name h = rw (before_last_slash-join parent name h) refl

-- The directory of a path is what stands before its last slash, and "." where there is none.
pub dir_lem :
    (parent name : Text)
    → IsName name
    → (dir (parent ++ b'/' ∷ name) ≡ parent) × (dir name ≡ codes ".")
unfolding dir
dir_lem parent name h =
    (ap or_here (before_last_slash-join parent name h), ap or_here (before_last_slash-name name h))

-- A file below a directory, as os sees it: what os.MkdirAll and os.WriteFile answer.
pub record Disk (E : Type 0) : Type 0 where
  pub files : List (Text × Text)
  pub directories : List Text

pub data Wrote (E : Type 0) : Type 0 where
  wrote : Disk E → Wrote E
  failed : E → Disk E → Wrote E

after_write : {E : Type 0} → Option E → Text → Text → Disk E → Wrote E
after_write (some e) path content disk = failed e disk
after_write none path content disk = wrote (record disk { files = (path, content) ∷ disk.files })

after_mkdir : {E : Type 0} → Option E → (Text → Option E) → Text → Text → Disk E → Wrote E
unfolding after_write
after_mkdir (some e) write path content disk = failed e disk
after_mkdir none write path content disk =
    after_write (write path) path content
      (record disk { directories = dir path ∷ disk.directories })

-- `mkdir_all` and `write` are the errors, if any, that os.MkdirAll of that directory and
-- os.WriteFile of that path give.
unfoldable pub write_file :
    {E : Type 0} → (Text → Option E) → (Text → Option E) → Text → Text → Disk E → Wrote E
unfolding after_mkdir
write_file mkdir_all write path content disk =
    after_mkdir (mkdir_all (dir path)) write path content disk

-- os.MkdirAll refuses the empty path, so a file that stands in the root cannot be written: `dir`
-- gives "" for it where the directory is "/".
pub write_file_in_root :
    {E : Type 0} (mkdir_all write : Text → Option E) (e : E) (name content : Text) (disk : Disk E)
    → mkdir_all [] ≡ some e
    → IsName name
    → write_file mkdir_all write (b'/' ∷ name) content disk ≡ failed e disk
unfolding write_file
write_file_in_root mkdir_all write e name content disk h n =
    ap (λ o. after_mkdir o write (b'/' ∷ name) content disk)
      (ap mkdir_all (dir_lem [] name n).0 ∙ h)
