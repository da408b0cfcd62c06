-- ===== src/Os/Memory.antt =====
-- A system kept in memory: the tests and the examples run on it.
use bettercpu.Base.{
  ℕ, Bool, true, false, ◌||◌, List, [], ◌∷◌, ◌++◌, Option, none, some, ◌≡◌, refl, arith, Text,
  codes, eq_text, eq_text_iff, ◌==◌, if◌then◌else◌,
}
use bettercpu.Base.Int.{ℤ, pos}
use bettercpu.Os.{Os}
use bettercpu.Os.Laws.{IsFileSystem, extend}

-- `files` holds the files and their texts, `folders` the folders and their entries, `users` is the
-- effective user id, `signals` tells at each test of the stop flag whether a signal has come, and
-- `log` is what has been printed, killed, run and slept.
pub record Machine : Type 0 where
  pub files : List (Text × Text)
  pub folders : List (Text × List Text)
  pub user : ℕ
  pub processes : List ℤ
  pub signals : List Bool
  pub input : Text
  pub log : List Text

module _ {V : Type 0} where
  unfoldable pub lookup : Text → List (Text × V) → Option V
  lookup k [] = none
  lookup k ((j, v) ∷ m) = if eq_text j k then some v else lookup k m

  unfoldable pub insert : Text → V → List (Text × V) → List (Text × V)
  insert k v [] = (k, v) ∷ []
  insert k v ((j, w) ∷ m) = if eq_text j k then (k, v) ∷ m else (j, w) ∷ insert k v m

  unfoldable pub erase : Text → List (Text × V) → List (Text × V)
  erase k [] = []
  erase k ((j, w) ∷ m) = let rest = erase k m in if eq_text j k then rest else (j, w) ∷ rest

  pub lookup-insert :
      (k j : Text) (v : V) (m : List (Text × V))
      → lookup j (insert k v m) ≡ (if eq_text k j then some v else lookup j m)
  unfolding lookup insert
  lookup-insert k j v [] = refl
  lookup-insert k j v ((i, w) ∷ m) =
      ground (arith, eq_text_iff k j, eq_text_iff i k, eq_text_iff i j, lookup-insert k j v m)

-- `locked` files cannot be opened for writing. Opening any other file empties it, or makes it.
open_file : (Text → Bool) → Text → Machine → Bool × Machine
open_file locked p m =
    if locked p then (false, m) else (true, record m { files = insert p [] m.files })

joined : Text → Option Text → Text
joined t none = t
joined t (some old) = old ++ t

-- `refuses` names the files that can be opened and take no text.
append_file : (Text → Bool) → Text → Text → Machine → Bool × Machine
unfolding joined
append_file refuses p t m =
    if refuses p
    then (false, m)
    else (true, record m { files = insert p (joined t (lookup p m.files)) m.files })

has_pid : ℤ → List ℤ → Bool
has_pid (pos n) (pos k ∷ ps) = n == k || has_pid (pos n) ps
has_pid z _ = false

next_signal : List Bool → Bool × List Bool
next_signal [] = (true, [])
next_signal (b ∷ bs) = (b, bs)

take_signal : Machine → Bool × Machine
unfolding next_signal
take_signal m = let (b, bs) = next_signal m.signals in (b, record m { signals = bs })

note : Text → Machine → Machine
note t m = record m { log = m.log ++ t ∷ [] }

remove_entry : Text → Machine → Bool × Machine
remove_entry p m = elim (lookup p m.files) [
  | none ↦ (false, m)
  | some text ↦ (true, record m { files = erase p m.files })
]

unfoldable pub memory : (Text → Bool) → (Text → Bool) → Os
unfolding open_file append_file has_pid take_signal note remove_entry lookup insert erase
memory locked refuses = record {
  State = Machine;
  read_file = λ p m. (lookup p m.files, m);
  open_out = open_file locked;
  write_out = append_file refuses;
  list_dir = λ p m. (lookup p m.folders, m);
  remove_file = remove_entry;
  fs_remove = λ p m. (none, record m { files = erase p m.files });
  fs_remove_all = λ p m. (none, record m { files = [] });
  create_directories = λ p m. (true, m);
  read_symlink = λ p m. (none, m);
  system = λ c m. (pos 0, note c m);
  kill = λ p k m. (has_pid p m.processes, note (codes "kill") m);
  fork = λ m. (pos 0, m);
  setsid = λ m. (pos 1, m);
  umask = λ k m. m;
  chdir = λ p m. (true, m);
  open_fd = λ p m. (pos 3, m);
  dup2 = λ a b m. m;
  close_fd = λ a m. m;
  getpid = λ m. (42, m);
  geteuid = λ m. (m.user, m);
  clock_ticks = λ m. (pos 100, m);
  sleep_ms = λ k m. note (codes "sleep") m;
  take_signal = take_signal;
  print_out = note;
  print_err = note;
  read_line = λ m. (m.input, m);
  indeterminate = λ m. 7;
}

lookup-open_file :
    (locked : Text → Bool) (p q : Text) (m : Machine)
    → lookup q (open_file locked p m).1.files ≡ (
        if (open_file locked p m).0
        then if eq_text p q then some [] else lookup q m.files
        else lookup q m.files)
unfolding open_file
lookup-open_file locked p q m = ground (arith, lookup-insert p q [] m.files)

extend-joined : (t : Text) (o : Option Text) → extend t o ≡ some (joined t o)
unfolding joined
extend-joined t none = refl
extend-joined t (some old) = refl

lookup-append_file :
    (refuses : Text → Bool) (p t q : Text) (m : Machine)
    → lookup q (append_file refuses p t m).1.files ≡ (
        if (append_file refuses p t m).0
        then if eq_text p q then extend t (lookup q m.files) else lookup q m.files
        else lookup q m.files)
unfolding append_file
lookup-append_file refuses p t q m = ground (
  arith,
  eq_text_iff p q,
  lookup-insert p q (joined t (lookup p m.files)) m.files,
  extend-joined t (lookup p m.files),
)

-- The system in memory meets what the theorems on files assume.
pub memory-IsFileSystem : (locked refuses : Text → Bool) → IsFileSystem (memory locked refuses)
unfolding memory
memory-IsFileSystem locked refuses = record {
  content = λ m p. lookup p m.files;
  read-content = λ p m. refl;
  content-read = λ p q m. refl;
  content-open = lookup-open_file locked;
  content-write = lookup-append_file refuses;
}

-- A system on which every file can be written.
abbrev pub free : Os
free = memory (λ _. false) (λ _. false)
