-- ===== src/Tests/Endpoint.antt =====
-- A bracketed address and its port.
use r9p.Base.{◌≡◌, [], ◌∷◌, ok, arith}
use r9p.Endpoint.{TcpEndpoint, parse, display}
use r9p.Endpoint.RoundTrip.{IsEndpoint, parse-display}

-- [::1]:564
abbrev loopback : TcpEndpoint
loopback = record { host = b':' ∷ b':' ∷ b'1' ∷ []; port = 564 }

loopback-IsEndpoint : IsEndpoint loopback
loopback-IsEndpoint = record {
  nonempty = omega arith;
  short = omega arith;
  host_bytes = omega arith;
  port_positive = omega arith;
  port_small = omega arith;
}

parse-display_example : parse (display loopback) ≡ ok loopback
parse-display_example = parse-display loopback loopback-IsEndpoint
