-- ===== src/Version/Tests.antt =====
-- The cases of compare_test.go.
use op_forward.Version.{compare, less, same}
use op_forward.Prelude.{◌≡◌, refl, codes}

newer_minor : compare (codes "0.2.9") (codes "0.10.0") ≡ less
unfolding compare
newer_minor = refl

non_numeric : compare (codes "dev") (codes "v0.0.0") ≡ same
unfolding compare
non_numeric = refl

short : compare (codes "1") (codes "1.0.0") ≡ same
unfolding compare
short = refl

pre_release : compare (codes "1.2.3-rc1") (codes "0.1.0") ≡ less
unfolding compare
pre_release = refl
