-- ===== src/Auth/Store/Apart.antt =====
-- Saves of several token files (`SaveToPath` of internal/auth/token.go).
use op_forward.Prelude.{◌≡◌, refl, true, false, none, arith, Text, text_eq}
use op_forward.Files.{Disk, Outcome, all_well, replace_in_directory}
use op_forward.Auth.Token.{Token}
use op_forward.Auth.Store.{Rfc3339, tmp_path, save_to_path, load_from_path}
use op_forward.Auth.Store.RoundTrip.{save_to_path-IsAtomic}

-- Writing the token file at the first path leaves the second alone.
abbrev pub IsApart : Text → Text → Type 0
IsApart p q = (text_eq p q ≡ false) × (text_eq (tmp_path p) q ≡ false)

pub saved_elsewhere :
    (time : Rfc3339) (d : Disk) (t : Token) (p q : Text) (o : Outcome)
    → IsApart p q
    → (save_to_path time d t p o).disk q ≡ d q
saved_elsewhere time d t p q o (other, unstaged) =
    let atomic = save_to_path-IsAtomic time d t p o q unstaged in ground (arith, other, atomic)

-- A save of which every step works reports no error.
pub saves :
    (time : Rfc3339) (d : Disk) (t : Token) (p : Text)
    → (save_to_path time d t p all_well).ok ≡ true
unfolding save_to_path replace_in_directory
saves time d t p = refl

-- A file is read from its path alone.
pub load_of_same :
    (time : Rfc3339) (d d' : Disk) (path : Text)
    → d path ≡ d' path
    → load_from_path time d path ≡ load_from_path time d' path
unfolding load_from_path
load_of_same time d d' path e = rw e refl

pub load_of_absent :
    (time : Rfc3339) (d : Disk) (path : Text) → d path ≡ none → load_from_path time d path ≡ none
unfolding load_from_path
load_of_absent time d path e = rw e refl
