-- ===== src/OpCheck/Locate/First.antt =====
-- `Locate` finds the first acceptable candidate.
use op_forward.Go.Strings.{contains}
use op_forward.Executor.Path.{Platform, unix, windows}
use op_forward.OpCheck.Buffer.{take}
use op_forward.OpCheck.Locate.{
  FileInfo, Machine, candidate_names, is_executable, signed, is_shim, acceptable, accepts,
  search_names, search_dirs, locate, or_else,
}
use op_forward.Prelude.{
  ℕ, ◌≡◌, refl, sym, ap, ◌∙◌, ◌↔◌, inl, inr, Bool, true, false, Option, none, some, List, [], ◌∷◌,
  ◌++◌, map, arith, if◌then◌else◌, Bool-cases, Text, codes, All,
}

-- What makes a file runnable.
abbrev pub IsRunnable : Platform → FileInfo → Type 0
IsRunnable windows info = info.is_dir ≡ false
IsRunnable unix info = (info.is_regular ≡ true) × (info.has_execute_bit ≡ true)

-- The file can be read, and its first kilobyte holds the shim's signature.
abbrev pub IsForwarding : Machine → Text → Type 0
IsForwarding m path =
    (bytes : List ℕ) × (m.content path ≡ some bytes)
    × (contains (codes "op-forward shim") (take 1024 bytes) ≡ true)

-- The path of a runnable file that is no shim.
abbrev pub IsGenuine : Machine → Text → Type 0
IsGenuine m path =
    (info : FileInfo) × (m.stat path ≡ some info)
    × IsRunnable m.platform info
    × (¬ IsForwarding m path)

-- All candidates in the order of the search: for each absolute entry of PATH, each name.
abbrev pub in_dir : Machine → Text → List Text → List Text
in_dir m dir names = map (λ name. m.join dir name) names

abbrev pub candidates_in : Machine → List Text → List Text → List Text
candidates_in m names [] = []
candidates_in m names (dir ∷ dirs) =
    (if m.is_abs dir then in_dir m dir names else []) ++ candidates_in m names dirs

abbrev pub candidates : Machine → List Text
candidates m = candidates_in m (candidate_names m.platform m.path_ext) m.path_dirs

-- The first item that passes a test.
abbrev pub find : (Text → Bool) → List Text → Option Text
find p [] = none
find p (x ∷ xs) = if p x then some x else find p xs

search_names-find :
    (m : Machine) (dir : Text) (names : List Text)
    → search_names m dir names ≡ find (accepts m) (in_dir m dir names)
unfolding search_names
search_names-find m dir [] = refl
search_names-find m dir (name ∷ names) = ground (arith, search_names-find m dir names)

find-append :
    (p : Text → Bool) (xs ys : List Text) → find p (xs ++ ys) ≡ or_else (find p xs) (find p ys)
find-append p [] ys = refl
find-append p (x ∷ xs) ys = ground (arith, find-append p xs ys)

search_dirs-find :
    (m : Machine) (names dirs : List Text)
    → search_dirs m names dirs ≡ find (accepts m) (candidates_in m names dirs)
unfolding search_dirs
search_dirs-find m names [] = refl
search_dirs-find m names (dir ∷ dirs) = ground (
  arith,
  search_names-find m dir names,
  search_dirs-find m names dirs,
  find-append (accepts m) (in_dir m dir names) (candidates_in m names dirs),
)

-- What `find` finds is the first that passes.
find_first :
    (p : Text → Bool) (xs : List Text) (x : Text)
    → find p xs ≡ some x
    → (before after : List Text) × (xs ≡ before ++ x ∷ after)
      × (p x ≡ true)
      × All (λ y. p y ≡ false) before
find_first p [] x h = cc
find_first p (y ∷ xs) x h = elim (Bool-cases (p y)) [
  | inl e ↦ ([], xs, ground arith, ground arith, tt)
  | inr e ↦
      let (before, after, same, ok, no_earlier) = find_first p xs x (ground arith) in
      (y ∷ before, after, ap (λ t. y ∷ t) same, ok, (e, no_earlier))
]

find-none : (p : Text → Bool) (xs : List Text) → find p xs ≡ none → All (λ y. p y ≡ false) xs
find-none p [] h = tt
find-none p (y ∷ xs) h = (ground arith, find-none p xs (ground arith))

signed-IsForwarding :
    (m : Machine) (path : Text) (content : Option (List ℕ))
    → m.content path ≡ content
    → signed content ≡ true
    → IsForwarding m path
signed-IsForwarding m path none at h = absurd (cc)
signed-IsForwarding m path (some bytes) at h = (bytes, at, h)

IsForwarding-is_shim : (m : Machine) (path : Text) → IsForwarding m path → is_shim m path ≡ true
unfolding is_shim
IsForwarding-is_shim m path (bytes, at, h) = ap signed at ∙ h

is_shim-IsForwarding : (m : Machine) (path : Text) → is_shim m path ≡ true → IsForwarding m path
unfolding is_shim
is_shim-IsForwarding m path h = signed-IsForwarding m path (m.content path) refl h

is_executable_iff :
    (p : Platform) (info : FileInfo) → (is_executable p info ≡ true) ↔ IsRunnable p info
is_executable_iff windows info = ground arith
is_executable_iff unix info = ground arith

acceptable-IsGenuine :
    (m : Machine) (path : Text) (info : Option FileInfo)
    → m.stat path ≡ info
    → acceptable m path info ≡ true
    → IsGenuine m path
acceptable-IsGenuine m path none at h = absurd (cc)
acceptable-IsGenuine m path (some info) at h = (
  info,
  at,
  (is_executable_iff m.platform info).0 (ground arith),
  λ forwarding. ground (arith, h, IsForwarding-is_shim m path forwarding),
)

IsGenuine-accepts : (m : Machine) (path : Text) → IsGenuine m path → accepts m path ≡ true
unfolding accepts
IsGenuine-accepts m path (info, at, runnable, genuine) =
    ap (acceptable m path) at ∙ elim (Bool-cases (is_shim m path)) [
      | inl e ↦ absurd (genuine (is_shim-IsForwarding m path e))
      | inr e ↦ ground (arith, e, (is_executable_iff m.platform info).1 runnable)
    ]

accepts-IsGenuine : (m : Machine) (path : Text) → accepts m path ≡ true → IsGenuine m path
unfolding accepts
accepts-IsGenuine m path h = acceptable-IsGenuine m path (m.stat path) refl h

none-IsGenuine :
    (m : Machine) (paths : List Text)
    → All (λ c. accepts m c ≡ false) paths
    → All (λ c. ¬ IsGenuine m c) paths
none-IsGenuine m [] h = tt
none-IsGenuine m (path ∷ paths) (e, h) =
    (λ genuine. ground (arith, e, IsGenuine-accepts m path genuine), none-IsGenuine m paths h)

-- The path that `Locate` returns is that of a file that can be run, on Windows no directory and
-- elsewhere a regular file with an execute bit, and that is no shim: its first kilobyte does not
-- hold the signature, or it cannot be read. Of the candidates, each name in each absolute entry of
-- PATH, it is the first such one; where `Locate` returns none, no candidate is.
pub locate_first :
    (m : Machine)
    → ((path : Text)
        → locate m ≡ some path
        → (before after : List Text) × (candidates m ≡ before ++ path ∷ after)
          × IsGenuine m path
          × All (λ c. ¬ IsGenuine m c) before)
      × (locate m ≡ none → All (λ c. ¬ IsGenuine m c) (candidates m))
unfolding locate
locate_first m = (
  λ path h.
      let (before, after, same, ok, no_earlier) =
        find_first (accepts m) (candidates m) path (sym (search_dirs-find m _ _) ∙ h) in
      (before, after, same, accepts-IsGenuine m path ok, none-IsGenuine m before no_earlier),
  λ h.
      none-IsGenuine m (candidates m)
        (find-none (accepts m) (candidates m) (sym (search_dirs-find m _ _) ∙ h)),
)
