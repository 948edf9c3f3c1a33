-- ===== src/Counting.antt =====
-- The counting service of exercise 7, esercitazione7/implementazione.c, called over RPC: `contafile`
-- counts the characters, words and lines of a file, `contadir` the files of a directory that are
-- large enough. What the system calls give is a parameter.
pub mod Files
pub mod Sizes
pub mod Leak
mod Tests
use lab_reti_di_calcolatori.Base.{
  ℕ, ◌+◌, Bool, ◌||◌, Option, none, some, List, [], ◌∷◌, ◌==◌, if◌then◌else◌, ◌>>=◌,
}
use lab_reti_di_calcolatori.Base.Int.{ℤ, pos, negsuc, ltb_ℤ, add_int}
use lab_reti_di_calcolatori.Base.CString.{Bytes, codes, str_eq, strcat}

pub record Res : Type 0 where
  pub first : ℤ
  pub second : ℤ
  pub third : ℤ

-- The body of the reading loop of `contafile` for the character `c`.
unfoldable pub count_char : ℕ → Res → Option Res
count_char c res = do
  first ← add_int res.first (pos 1)
  second ← if c == b' ' then add_int res.second (pos 1) else some res.second
  let newline = do
    second' ← add_int second (pos 1)
    third ← add_int res.third (pos 1)
    some (record { first = first; second = second'; third = third })
  if c == b'\n'
      then newline
      else some (record { first = first; second = second; third = res.third })

unfoldable pub count_file : Bytes → Res → Option Res
count_file [] res = some res
count_file (c ∷ cs) res = count_char c res >>= count_file cs

unfoldable pub contafile : (Bytes → Option Bytes) → Bytes → Option Res
contafile open_file nomefile = elim (open_file nomefile) [
  | none ↦ some (record { first = negsuc 0; second = negsuc 0; third = negsuc 0 })
  | some content ↦ count_file content (record { first = pos 0; second = pos 0; third = pos 0 })
]

pub record DirScan : Type 0 where
  pub filename : Bytes
  pub dimfile : ℤ

-- The system calls of `contadir`. `opendir` gives the names that `readdir` goes through. Whether
-- `open_file` and `opendir` succeed may depend on how many descriptors the process has open.
pub record System (File : Type 0) : Type 0 where
  pub opendir : ℕ → Bytes → Option (List Bytes)
  pub open_file : ℕ → Bytes → Option File
  pub lseek : File → ℤ → ℤ → ℤ

-- `ris` and the number of open descriptors.
pub record Scan : Type 0 where
  pub ris : ℤ
  pub descriptors : ℕ

-- The size of the array `path`.
abbrev pub path_size : ℕ
path_size = 512

-- The values of `SEEK_SET` and `SEEK_END`.
abbrev pub seek_set : ℤ
seek_set = pos 0

abbrev pub seek_end : ℤ
seek_end = pos 2

abbrev pub is_special : Bytes → Bool
is_special name = str_eq name (codes ".") || str_eq name (codes "..")

module _ {File : Type 0} (sys : System File) (dir : DirScan) where
  -- The open file `f` that is not a special folder; it is closed again.
  unfoldable pub count_size : File → Scan → Option Scan
  count_size f s = do
    ris ←
        if ltb_ℤ (sys.lseek f seek_end (pos 0)) dir.dimfile
        then some s.ris
        else add_int s.ris (pos 1)
    some (record { ris = ris; descriptors = s.descriptors })

  -- The body of the loop of `contadir` for the entry `name`. A special folder that can be opened
  -- stays open.
  unfoldable pub scan_entry : Bytes → Scan → Option Scan
  scan_entry name s = do
    copied ← strcat path_size [] dir.filename
    slashed ← strcat path_size copied (codes "/")
    path ← strcat path_size slashed name
    elim (sys.open_file s.descriptors path) [
      | none ↦ some s
      | some f ↦
          let special : Scan = record { ris = s.ris; descriptors = s.descriptors + 1 } in
          if is_special name then some special else count_size f s
    ]

  unfoldable pub scan : List Bytes → Scan → Option Scan
  scan [] s = some s
  scan (name ∷ names) s = scan_entry name s >>= scan names

  -- `contadir` in a process with this number of open descriptors. The directory stays open.
  unfoldable pub contadir : ℕ → Option Scan
  contadir descriptors = elim (sys.opendir descriptors dir.filename) [
    | none ↦ some (record { ris = negsuc 0; descriptors = descriptors })
    | some names ↦ scan names (record { ris = pos 0; descriptors = descriptors + 1 })
  ]
