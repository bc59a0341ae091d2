-- ===== src/Version/Compatibility.antt =====
-- What `CheckCompatibility` tells a client.
use op_forward.Version.{less, compare, compatible, check_compatibility}
use op_forward.Version.Order.{compare_trans, compare-flip}
use op_forward.Prelude.{
  ◌≡◌, ◌≢◌, ◌↔◌, ◌⊎◌, true, false, none, some, [], arith, Text, codes, text_eq_iff,
}

-- The versions that are not checked.
abbrev pub IsUnversioned : Text → Type 0
IsUnversioned v = (v ≡ []) ⊎ (v ≡ codes "dev")

-- The client is blocked exactly if it states a version other than `dev` that is below the minimum.
pub upgrade_required_iff :
    (client server min : Text)
    → ((check_compatibility client server min).upgrade_required ≡ true)
      ↔ ((client ≢ []) × (client ≢ codes "dev") × (compare client min ≡ less))
unfolding check_compatibility
upgrade_required_iff client server min =
    ground (arith, text_eq_iff client [], text_eq_iff client (codes "dev"))

-- Where the client is blocked it is told the server's version, and the message names its own and
-- the minimum; where it is only behind the server it is told the server's version alone; else the
-- verdict is empty.
pub check_compatibility_cases :
    (client server min : Text)
    → client ≢ []
    → client ≢ codes "dev"
    → ((compare client min ≡ less)
        × (check_compatibility client server min ≡ record {
          upgrade_required = true;
          update_available = server;
          message = some (client, min);
        }))
      ⊎ (((compare client min ≢ less)
            × (compare client server ≡ less)
            × (check_compatibility client server min
                ≡ record { upgrade_required = false; update_available = server; message = none }))
          ⊎ ((compare client min ≢ less)
              × (compare client server ≢ less)
              × (check_compatibility client server min ≡ compatible)))
unfolding check_compatibility
check_compatibility_cases client server min h k =
    ground (arith, text_eq_iff client [], text_eq_iff client (codes "dev"))

-- Updating never blocks a client: if it is accepted, so is every version that is not below it.
pub check_compatibility_mono :
    (old new server min : Text)
    → old ≢ []
    → old ≢ codes "dev"
    → (check_compatibility old server min).upgrade_required ≡ false
    → compare new old ≢ less
    → (check_compatibility new server min).upgrade_required ≡ false
unfolding check_compatibility
check_compatibility_mono old new server min h k e le = ground (
  arith,
  text_eq_iff old [],
  text_eq_iff old (codes "dev"),
  compare-flip new old,
  compare_trans old new min,
  compare_trans new min old,
  compare-flip min old,
)
