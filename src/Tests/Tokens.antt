-- ===== src/Tests/Tokens.antt =====
-- Runs of the token operations.
use op_forward.Go.Strings.{is_space, split_n, trim_space}
use op_forward.Files.{Disk, all_well}
use op_forward.Auth.Token.{Token, second, refresh_token_ttl}
use op_forward.Auth.Token.Hex.{IsSolid}
use op_forward.Auth.Store.{save_to_path, load_from_path, refresh_token_path, legacy_token_path}
use op_forward.Auth.Store.RoundTrip.{stored, load-save}
use op_forward.Auth.Lifecycle.{Moment, load_or_generate_refresh, migrate_legacy_token}
use op_forward.Auth.Lifecycle.Migration.{migrate_promotes}
use op_forward.Proxy.Tokens.{read_token}
use op_forward.Proxy.Tokens.Reading.{read_token-save}
use op_forward.Tests.Fixtures.{
  nonempty, empty_disk, ones, twos, clock, last_instant, env, clock-IsRfc3339,
}
use op_forward.Prelude.{◌*◌, ◌/◌, ◌≡◌, refl, false, some, arith, ltb, Text, codes}

-- A token that expires half a second after the third.
abbrev short : Token
short = record { value = codes "abc"; expires = 3500000000; ttl = 0 }

short-IsSolid : IsSolid short.value
unfolding is_space
short-IsSolid = (refl, (refl, (refl, tt)))

abbrev path : Text
path = codes "/tokens/refresh.token"

abbrev after_save : Disk
after_save = (save_to_path clock empty_disk short path all_well).disk

read_token-save_example :
    read_token clock after_save 5 path ≡ (codes "abc", ltb 5 (3500000000 / second * second))
unfolding save_to_path
read_token-save_example =
    read_token-save clock last_instant clock-IsRfc3339 empty_disk path short all_well 5 nonempty
      short-IsSolid (omega arith) refl

abbrev first_start : Moment
first_start = record { now = 7; random = ones; outcome = all_well }

abbrev later_start : Moment
later_start = record { now = 3600000000000; random = twos; outcome = all_well }

abbrev legacy_path : Text
legacy_path = codes "/tokens/session.token"

abbrev legacy_disk : Disk
legacy_disk = (save_to_path clock empty_disk short legacy_path all_well).disk

migrate_promotes_example :
    (load_or_generate_refresh clock env
      (migrate_legacy_token clock env legacy_disk first_start).disk
      (record later_start { now = 2000000000 })).token
    ≡ some (record (stored short) { ttl = refresh_token_ttl }, false)
unfolding refresh_token_path legacy_token_path save_to_path migrate_legacy_token load_from_path
    split_n trim_space
migrate_promotes_example =
    migrate_promotes clock last_instant env legacy_disk first_start
      (record later_start { now = 2000000000 }) path legacy_path (stored short) clock-IsRfc3339 refl
      refl refl
      (load-save clock last_instant clock-IsRfc3339 empty_disk legacy_path short all_well nonempty
        short-IsSolid (omega arith) refl)
      nonempty short-IsSolid (omega arith) (omega arith) refl (omega arith)
