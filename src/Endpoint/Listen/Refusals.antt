-- ===== src/Endpoint/Listen/Refusals.antt =====
-- What has to hold before the daemon listens, and what it never removes.
use Prim.Native.Nat.{bit_and}
use op_forward.Endpoint.Address.{Network, tcp, unix, Endpoint, is_loopback}
use op_forward.Endpoint.Listen.{DirInfo, System, absent, socket, check_private_dir, listen}
use op_forward.Prelude.{◌≡◌, refl, ◌⊎◌, inl, inr, true, false, none, some, arith, Option-cases}

-- A directory with no permission for group and others, owned by the user where the owner is known.
abbrev pub IsPrivate : System → Type 0
IsPrivate sys =
    (info : DirInfo) × (sys.dir ≡ some info)
    × (info.is_dir ≡ true)
    × (bit_and info.perm 0o77 ≡ 0)
    × ((info.owner ≡ none) ⊎ (info.owner ≡ some sys.uid))

check_private_dir_sound : (sys : System) → check_private_dir sys ≡ none → IsPrivate sys
check_private_dir_sound sys h = elim (Option-cases sys.dir) [
  | inl e ↦ absurd (unfold check_private_dir in ground (arith, e, h))
  | inr (info, e) ↦ (
    info,
    e,
    unfold check_private_dir in ground (arith, e, h),
    unfold check_private_dir in ground (arith, e, h),
    unfold check_private_dir in ground (arith, e, h),
  )
]

Network-cases : (n : Network) → (n ≡ tcp) ⊎ (n ≡ unix)
Network-cases tcp = inl refl
Network-cases unix = inr refl

opened_unix :
    (sys : System) (e : Endpoint)
    → e.network ≡ unix
    → (listen sys e).error ≡ none
    → (check_private_dir sys ≡ none)
      × ((listen sys e).mode ≡ some 0o600)
      × ((sys.existing ≡ absent) ⊎ ((sys.existing ≡ socket) × (sys.probe_answered ≡ false)))
unfolding listen
opened_unix sys e n h = (ground (arith, n, h), ground (arith, n, h), ground (arith, n, h))

removed_unix :
    (sys : System) (e : Endpoint)
    → (listen sys e).removed ≡ true
    → (e.network ≡ unix)
      × (check_private_dir sys ≡ none)
      × (sys.existing ≡ socket)
      × (sys.probe_answered ≡ false)
      × (sys.remove_ok ≡ true)
unfolding listen
removed_unix sys e h = ground arith

-- A listener is opened on TCP only for a loopback address, and on a Unix socket only in a private
-- directory, with mode 0600, and never in the place of a file that is not a socket or of a socket
-- that answers.
pub listen_sound :
    (sys : System) (e : Endpoint)
    → (listen sys e).error ≡ none
    → ((e.network ≡ tcp) × (is_loopback sys.is_loopback_ip e ≡ true))
      ⊎ ((e.network ≡ unix)
          × IsPrivate sys
          × ((listen sys e).mode ≡ some 0o600)
          × ((sys.existing ≡ absent) ⊎ ((sys.existing ≡ socket) × (sys.probe_answered ≡ false))))
listen_sound sys e h = elim (Network-cases e.network) [
  | inl n ↦ inl (n, unfold listen in ground (arith, n, h))
  | inr n ↦
      let (dir, mode, existing) = opened_unix sys e n h in
      inr (n, check_private_dir_sound sys dir, mode, existing)
]

-- Whatever the outcome, a file is removed only if it is a socket that does not answer, in a private
-- directory.
pub listen_removed :
    (sys : System) (e : Endpoint)
    → (listen sys e).removed ≡ true
    → (e.network ≡ unix)
      × IsPrivate sys
      × (sys.existing ≡ socket)
      × (sys.probe_answered ≡ false)
      × (sys.remove_ok ≡ true)
listen_removed sys e h =
    let (n, dir, existing, silent, removed) = removed_unix sys e h in
    (n, check_private_dir_sound sys dir, existing, silent, removed)
