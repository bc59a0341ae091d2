-- ===== src/Files/History.antt =====
-- A sequence of replacements refines a store in which each write happens at once or not at all.
use op_forward.Files.{Disk, Write, written, write_failed, Outcome, replace_in_directory}
use op_forward.Files.Atomic.{replace_in_directory-IsAtomic}
use op_forward.Prelude.{
  ◌≡◌, refl, ap, ◌∙◌, Bool, true, false, ◌&&◌, Option, some, List, [], ◌∷◌, arith, if◌then◌else◌,
  Text, text_eq, All,
}

-- One replacement: the staged file, the target, the content, and what the operating system does.
pub record Replacement : Type 0 where
  pub tmp : Text
  pub path : Text
  pub content : Text
  pub outcome : Outcome

-- The replacements one after the other, each below a directory that is made first.
unfoldable pub replace_all_of : Disk → List Replacement → Disk
replace_all_of d [] = d
replace_all_of d (r ∷ rs) =
    replace_all_of (replace_in_directory d r.tmp r.path r.content r.outcome).disk rs

abbrev pub is_written : Write → Bool
is_written written = true
is_written (write_failed left) = false

-- The abstract store: a write takes effect exactly if each of its steps works.
abbrev pub succeeds : Outcome → Bool
succeeds o = o.mkdir_ok && (is_written o.write && o.rename_ok)

-- What a path holds after the abstract writes.
unfoldable pub last_written : Text → List Replacement → Option Text → Option Text
last_written q [] before = before
last_written q (r ∷ rs) before =
    last_written q rs (if succeeds r.outcome && text_eq r.path q then some r.content else before)

pub replace_in_directory-ok :
    (d : Disk) (tmp path content : Text) (o : Outcome)
    → (replace_in_directory d tmp path content o).ok ≡ succeeds o
unfolding replace_in_directory
replace_in_directory-ok d tmp path content o = ground arith

-- After any sequence of replacements, whatever fails in them, a path that is none of their staged
-- files holds the content of the last replacement of it of which every step worked, or what it held
-- before if there is none.
pub replace_all_of-last_written :
    (d : Disk) (rs : List Replacement) (q : Text)
    → All (λ r. text_eq r.tmp q ≡ false) rs
    → replace_all_of d rs q ≡ last_written q rs (d q)
unfolding replace_all_of last_written
replace_all_of-last_written d [] q unstaged = refl
replace_all_of-last_written d (r ∷ rs) q (first, unstaged) =
    replace_all_of-last_written (replace_in_directory d r.tmp r.path r.content r.outcome).disk rs q
      unstaged
    ∙ ap (last_written q rs) (
        replace_in_directory-IsAtomic d r.tmp r.path r.content r.outcome q first
        ∙ ap (λ b. if b && text_eq r.path q then some r.content else d q)
            (replace_in_directory-ok d r.tmp r.path r.content r.outcome))
