-- ===== src/Listing/Paths.antt =====
-- The paths that the directory service builds.
use lab_reti_di_calcolatori.Base.{◌+◌, ◌<◌, some, [], ◌++◌, ◌≡◌, refl, arith, length, length-append}
use lab_reti_di_calcolatori.Base.CString.{Bytes, codes, strcat_lem}
use lab_reti_di_calcolatori.Listing.{dir_path_size, join_path}

abbrev pub path_of : Bytes → Bytes → Bytes
path_of a b = (a ++ codes "/") ++ b

abbrev pub Fits : Bytes → Bytes → Type 0
Fits a b = length a + 1 + length b < dir_path_size

pub join_path-Fits : (a b : Bytes) → Fits a b → join_path a b ≡ some (path_of a b)
unfolding join_path
join_path-Fits a b fits =
    let l = length-append a (codes "/") in
    rw
      (
        strcat_lem dir_path_size [] a (omega arith),
        strcat_lem dir_path_size a (codes "/") (omega arith),
        strcat_lem dir_path_size (a ++ codes "/") b (omega arith),
      )
      refl
