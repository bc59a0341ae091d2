-- ===== src/Endpoint/Address/Local.antt =====
-- The endpoint that the daemon binds by default is local.
use op_forward.Prelude.Int.{ℤ, pos, negsuc}
use op_forward.Go.Strconv.{itoa, itoa_ℕ}
use op_forward.Go.Strconv.RoundTrip.{IsNumeral, itoa_ℕ-All, All-IsNumeral}
use op_forward.Go.Net.{has}
use op_forward.Go.Net.HostPort.{split-join}
use op_forward.Endpoint.Address.{tcp_endpoint, is_loopback}
use op_forward.Endpoint.Address.RoundTrip.{numeral_plain}
use op_forward.Prelude.{suc, ◌≡◌, refl, ◌≢◌, inl, inr, Bool, false, [], Text, All}

itoa-All : (n : ℤ) → All IsNumeral (itoa n)
unfolding itoa
itoa-All (pos n) = All-IsNumeral (itoa_ℕ n) (itoa_ℕ-All n)
itoa-All (negsuc n) = (inl refl, All-IsNumeral (itoa_ℕ (suc n)) (itoa_ℕ-All (suc n)))

-- A host without brackets is found again in its TCP endpoint, for every port number, so that
-- endpoint is a loopback one exactly if the host is a loopback IP literal.
is_loopback-tcp_endpoint :
    (is_loopback_ip : Text → Bool) (host : Text) (port : ℤ)
    → host ≢ []
    → has b'[' host ≡ false
    → has b']' host ≡ false
    → is_loopback is_loopback_ip (tcp_endpoint host port) ≡ is_loopback_ip host
unfolding is_loopback tcp_endpoint
is_loopback-tcp_endpoint is_loopback_ip host port h a z =
    let n = itoa-All port in
    rw (
      split-join host (itoa port) (record {
        host_ne_nil = h;
        host_plain = (a, z);
        port_plain = (
          numeral_plain b'[' (itoa port) (inr (inl refl)) n,
          numeral_plain b']' (itoa port) (inr (inr refl)) n,
          numeral_plain b':' (itoa port) (inl refl) n,
        );
      }))
