-- ===== src/Tests/Texts.antt =====
-- Runs on versions, host and port texts.
use op_forward.Go.Net.{split_host_port, join_host_port, has}
use op_forward.Go.Net.HostPort.{IsJoinable, split-join}
use op_forward.Tests.Fixtures.{nonempty}
use op_forward.Prelude.{◌≡◌, refl, some, Text, codes}

-- An IPv6 address and the port 80.
abbrev v6 : Text
v6 = codes "::1"

v6-IsJoinable : IsJoinable v6 (codes "80")
unfolding has
v6-IsJoinable = record {
  host_ne_nil = nonempty;
  host_plain = (refl, refl);
  port_plain = (refl, refl, refl);
}

split-join_example : split_host_port (join_host_port v6 (codes "80")) ≡ some (v6, codes "80")
split-join_example = split-join v6 (codes "80") v6-IsJoinable
