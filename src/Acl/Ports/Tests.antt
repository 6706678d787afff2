-- ===== src/Acl/Ports/Tests.antt =====
-- src/acl/types.rs: the theorems on ports at concrete texts.
use rust_socks.Prelude.{◌≡◌, [], ◌∷◌, arith}
use rust_socks.Utils.Result.{ok}
use rust_socks.Acl.Types.{multiple}
use rust_socks.Acl.Ports.{port_matcher_from_str}
use rust_socks.Acl.Ports.Texts.{port_text, port_matcher_from_str-port_text}

two_ports_parsed :
    port_matcher_from_str (port_text (multiple (80 ∷ 443 ∷ []))) ≡ ok (multiple (80 ∷ 443 ∷ []))
two_ports_parsed = port_matcher_from_str-port_text (multiple (80 ∷ 443 ∷ [])) (ground arith)
