-- ===== src/Install/Script.antt =====
-- What the shim of cmd/install.go does when it is run: the commands of `shimTemplate`.
pub mod Contract
use op_forward.Prelude.Int.{ℤ, pos, negsuc}
use op_forward.Prelude.{
  ℕ, ◌-◌, ◌%◌, Bool, true, false, ◌&&◌, not, List, [], ◌∷◌, ◌==◌, if◌then◌else◌, Text, codes,
}

-- REAL_OP and OP_FORWARD_BIN as the installation recorded them.
pub record Script : Type 0 where
  pub real_op : Text
  pub bin : Text

-- The tests `[ -x … ]`, `command -v op-forward` with the empty text where it finds none, and what
-- running a program does: the state afterwards, what it printed on stdout and on stderr, and its
-- status.
pub record Shell (W E : Type 0) : Type 0 where
  pub is_executable : Text → Bool
  pub on_path : Text
  pub spawn : W → Text → List Text → W × Text × List E × ℕ

-- How the script ends: with a status, as another program with these arguments, or, with neither,
-- with its message and status 1.
pub data End : Type 0 where
  exited : ℕ → End
  execs : Text → List Text → End
  no_fallback : End

-- What is left when the script ends, and what the programs that it ran printed until then.
pub record Ended (W E : Type 0) : Type 0 where
  pub world : W
  pub stdout : Text
  pub stderr : List E
  pub end : End

-- The status that the caller of a process sees of the argument of `os.Exit`.
abbrev pub status_of : ℤ → ℕ
status_of (pos n) = n % 256
status_of (negsuc n) = 255 - n % 256

abbrev pub is_nil : Text → Bool
is_nil [] = true
is_nil (c ∷ s) = false

module _ {W E : Type 0} (shell : Shell W E) (script : Script) where
  -- The binary that is run, where the recorded path is stale.
  abbrev pub resolved_bin : Text
  resolved_bin = if not (shell.is_executable script.bin) then shell.on_path else script.bin

  -- From the comment on the fallback on.
  unfoldable pub fall_back : W → Text → List E → List Text → Ended W E
  fall_back w stdout stderr args =
      if not (is_nil script.real_op) && shell.is_executable script.real_op
      then record { world = w; stdout = stdout; stderr = stderr; end = execs script.real_op args }
      else record { world = w; stdout = stdout; stderr = stderr; end = no_fallback }

  abbrev pub after_proxy : List Text → W × Text × List E × ℕ → Ended W E
  after_proxy args (w, stdout, stderr, status) =
      if not (status == 127)
      then record { world = w; stdout = stdout; stderr = stderr; end = exited status }
      else fall_back w stdout stderr args

  -- The script with its arguments.
  unfoldable pub run_shim : W → List Text → Ended W E
  unfolding fall_back
  run_shim w args =
      if not (is_nil resolved_bin) && shell.is_executable resolved_bin
      then after_proxy args (shell.spawn w resolved_bin (codes "proxy" ∷ codes "--" ∷ args))
      else fall_back w [] [] args
