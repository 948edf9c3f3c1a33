-- ===== src/Listing.antt =====
-- The directory service of exercise 4, the connection of a child process of
-- esercitazione_4/src/server.c: the client sends the name of a directory and is sent the names of
-- the files in its subdirectories. What the system calls give is a
-- parameter; the reading of the names is in `Connection`.
pub mod Paths
pub mod Files
pub mod Stale
pub mod Names
pub mod Client
pub mod Dialog
pub mod Connection
pub mod Requests
pub mod Session
pub mod Tours
mod Tests
use lab_reti_di_calcolatori.Base.{
  ℕ, Bool, not, ◌&&◌, ◌||◌, Option, none, some, List, [], ◌∷◌, ◌++◌, if◌then◌else◌, ◌>>=◌,
}
use lab_reti_di_calcolatori.Base.Int.{ℤ, pos, negsuc}
use lab_reti_di_calcolatori.Base.CString.{Bytes, codes, str_eq, strcat}

-- The size of the arrays `nomeDir` and `dirPath`.
abbrev pub dir_path_size : ℕ
dir_path_size = 256

-- What the system answers: the names that `readdir` goes through, with `none` where `opendir` gives
-- no directory, and whether a path is a directory, with `none` where `stat` fails.
pub record System : Type 0 where
  pub opendir : Bytes → Option (List Bytes)
  pub stat_dir : Bytes → Option Bool

-- What is written to the connection: an `int`, or 256 bytes that start with a name.
pub data Message : Type 0 where
  status : ℤ → Message
  name : Bytes → Message

-- The directory bit of `stats`, which the server and its children never reset, and the messages.
pub record Listed : Type 0 where
  pub stats_dir : Bool
  pub written : List Message

abbrev pub is_dot : Bytes → Bool
is_dot d_name = str_eq d_name (codes ".") || str_eq d_name (codes "..")

-- `strcpy(dirPath, a)`, and then `strcat` of "/" and `b`.
unfoldable pub join_path : Bytes → Bytes → Option Bytes
join_path a b = do
  copied ← strcat dir_path_size [] a
  slashed ← strcat dir_path_size copied (codes "/")
  strcat dir_path_size slashed b

module _ (sys : System) where
  -- `stat` on a path; where it fails, `stats` keeps what it held.
  abbrev pub stat : Bytes → Bool → Bool
  stat path stats_dir = elim (sys.stat_dir path) [ none ↦ stats_dir | some d ↦ d ]

  -- The body of the inner loop for the entry `inner` of the subdirectory `dir`.
  unfoldable pub list_file : Bytes → Bytes → Bytes → Listed → Option Listed
  list_file nome_dir dir inner s = do
    folder ← join_path nome_dir dir
    slashed ← strcat dir_path_size folder (codes "/")
    path ← strcat dir_path_size slashed inner
    let d : Bool = stat path s.stats_dir
    let found : Listed = record { stats_dir = d; written = s.written ++ name inner ∷ [] }
    let other : Listed = record { stats_dir = d; written = s.written }
    some (if not (is_dot inner) && not d then found else other)

  unfoldable pub list_files : Bytes → Bytes → List Bytes → Listed → Option Listed
  list_files nome_dir dir [] s = some s
  list_files nome_dir dir (inner ∷ entries) s =
      list_file nome_dir dir inner s >>= list_files nome_dir dir entries

  -- `readdir` on the subdirectory that has been opened, or on a null pointer.
  unfoldable pub list_opened : Bytes → Bytes → Option (List Bytes) → Listed → Option Listed
  list_opened nome_dir dir none s = none
  list_opened nome_dir dir (some entries) s = list_files nome_dir dir entries s

  -- The body of the outer loop for the entry `dir`.
  unfoldable pub list_entry : Bytes → Bytes → Listed → Option Listed
  list_entry nome_dir dir s =
      let subdirectory = do
        path ← join_path nome_dir dir
        let d : Bool = stat path s.stats_dir
        let next : Listed = record { stats_dir = d; written = s.written }
        let inside = list_opened nome_dir dir (sys.opendir path) next
        if d then inside else some next
      in if is_dot dir then some s else subdirectory

  unfoldable pub list_entries : Bytes → List Bytes → Listed → Option Listed
  list_entries nome_dir [] s = some s
  list_entries nome_dir (dir ∷ dirs) s = list_entry nome_dir dir s >>= list_entries nome_dir dirs

  -- One request for the directory `nome_dir`.
  unfoldable pub list_directory : Bytes → Bool → Option Listed
  list_directory nome_dir stats_dir = elim (sys.opendir nome_dir) [
    | none ↦ some (record { stats_dir = stats_dir; written = status (negsuc 0) ∷ [] })
    | some dirs ↦
        list_entries nome_dir dirs (record { stats_dir = stats_dir; written = status (pos 1) ∷ [] })
  ]
