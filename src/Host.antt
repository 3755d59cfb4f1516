-- ===== src/Host.antt =====
-- The machine that the service runs on, as far as worker.go, configuration.go, helpers.go,
-- logging.go, security.go and server.go use it: files, folders and processes, with `PathExists`,
-- `IsDir` and `createFolder` (helpers.go). A start-up step goes on, or ends the program.
pub mod Folders
pub mod Posts
unfoldable pub use web_based_jobs_worker_se.Paths.{join_path}
use web_based_jobs_worker_se.Base.{
  ℕ, Bool, true, false, ◌&&◌, List, [], ◌++◌, Option, none, some, Text, text_key, ◌==◌, ℤ,
  if◌then◌else◌,
}
use web_based_jobs_worker_se.Http.{text}

-- What a path leads to. `hidden` is a path whose `os.Stat` fails with another error than that
-- nothing is there; an `unreadable` file can be found and not read.
pub data Entry : Type 0 where
  missing folder hidden unreadable : Entry
  file : Text → Entry

pub data Proc : Type 0 where
  absent running protected : Proc  -- signals to a protected process are not permitted

-- `os.IsNotExist` tells the first from all others.
pub data Error : Type 0 where
  not_exist failed : Error

-- `syscall.Rlimit`.
pub record Rlimit : Type 0 where
  pub cur : ℕ
  pub max : ℕ

pub record Machine : Type 0 where
  pub windows : Bool
  pub entry : Text → Entry
  pub writable : Text → Bool  -- whether the path can be created, or opened for writing
  pub removable : Text → Bool
  pub has_space : Bool
  pub procs : ℤ → Proc
  pub rlimit : Rlimit  -- the limit on open files
  pub permits : Rlimit → Bool  -- whether `syscall.Setrlimit` succeeds

abbrev pub put_entry : Text → Entry → Machine → Machine
put_entry path e m = record m { entry = λ p. if path == p then e else m.entry p }

-- A step of the program: it goes on with a value, ends the program with an exit code, or panics.
pub data Step (A : Type 0) : Type 0 where
  next : A → Machine → Step A
  exited : ℕ → Machine → Step A
  panicked : Machine → Step A

abbrev pub S : Type 0 → Type 0
S A = Machine → Step A

abbrev pub pure : {A : Type 0} → A → S A
pure a m = next a m

abbrev pub exit_with : {A : Type 0} → ℕ → S A
exit_with code m = exited code m

abbrev pub bind : {A B : Type 0} → Step A → (A → S B) → Step B
bind (next a m) f = f a m
bind (exited code m) f = exited code m
bind (panicked m) f = panicked m

infixl 5 ◌>>=◌ ◌>>◌
abbrev pub ◌>>=◌ : {A B : Type 0} → S A → (A → S B) → S B
◌>>=◌ m f s = bind (m s) f

abbrev pub ◌>>◌ : {B : Type 0} → S (Unit {0}) → S B → S B
m >> k = m >>= λ _. k

abbrev pub stat_error : Entry → Option Error
stat_error missing = some not_exist
stat_error hidden = some failed
stat_error folder = none
stat_error unreadable = none
stat_error (file s) = none

-- The error of `os.Stat`.
unfoldable pub stat : Text → S (Option Error)
stat path m = next (stat_error (m.entry path)) m

abbrev is_folder : Entry → Bool
is_folder folder = true
is_folder _ = false

-- `info.IsDir()`.
unfoldable pub stat_is_dir : Text → S Bool
stat_is_dir path m = next (is_folder (m.entry path)) m

-- The content that `ioutil.ReadFile` returns, or its error.
pub data Content : Type 0 where
  content : Text → Content
  read_error : Error → Content

abbrev pub content_of : Entry → Content
content_of missing = read_error not_exist
content_of hidden = read_error failed
content_of folder = read_error failed
content_of unreadable = read_error failed
content_of (file s) = content s

unfoldable pub read_file : Text → S Content
read_file path m = next (content_of (m.entry path)) m

-- `os.Remove`, whose error the program never reads.
unfoldable pub remove : Text → S (Unit {0})
remove path m = next tt (if m.removable path then put_entry path missing m else m)

abbrev pub opens : Entry → Bool
opens folder = false
opens hidden = false
opens _ = true

-- `os.Create`: the file is there and empty, or there is an error.
unfoldable pub create : Text → S (Option Error)
create path m =
    if opens (m.entry path) && m.writable path
    then next none (put_entry path (file []) m)
    else next (some failed) m

abbrev pub kept : Entry → Entry
kept missing = file []
kept e = e

-- `os.OpenFile` for appending, which creates the file where it is missing.
unfoldable pub open_append : Text → S (Option Error)
open_append path m =
    if opens (m.entry path) && m.writable path
    then next none (put_entry path (kept (m.entry path)) m)
    else next (some failed) m

-- `f.WriteString` into a file that has just been created.
unfoldable pub write_string : Text → Text → S (Option Error)
write_string path s m =
    if m.has_space then next none (put_entry path (file s) m) else next (some failed) m

-- `os.WriteFile`.
unfoldable pub write_file : Text → Text → S (Option Error)
unfolding create write_string
write_file path s = do
  err ← create path
  elim err [ none ↦ write_string path s | some e ↦ pure (some e) ]

abbrev pub mkdir : Entry → Bool → Text → S (Option Error)
mkdir missing true path m = next none (put_entry path folder m)
mkdir folder able path m = next none m
mkdir _ able path m = next (some failed) m

-- `os.MkdirAll`; the parents that it makes on its way are not looked at again.
unfoldable pub mkdir_all : Text → S (Option Error)
mkdir_all path m = mkdir (m.entry path) (m.writable path) path m

-- `PathExists`.
unfoldable pub path_exists : Text → S (Bool × Option Error)
unfolding stat
path_exists path = do
  err ← stat path
  elim err [
    | none ↦ pure (true, none)
    | some not_exist ↦ pure (false, none)
    | some failed ↦ pure (false, some failed)
  ]

-- `IsDir`.
unfoldable pub is_dir : Text → S (Bool × Option Error)
unfolding stat stat_is_dir
is_dir path = do
  err ← stat path
  elim err [ some e ↦ pure (false, some e) | none ↦ (do dir ← stat_is_dir path; pure (dir, none)) ]

-- `createFolder`, where the path was found: `IsDir` without an error means that there is none.
create_found : Text → S (Option Error)
unfolding is_dir
create_found path = do (dir, err) ← is_dir path; pure err

-- `createFolder`.
unfoldable pub create_folder : Text → S (Option Error)
unfolding path_exists create_found mkdir_all
create_folder path = do
  (exists, err) ← path_exists path
  if exists then create_found path else mkdir_all path
