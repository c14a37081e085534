-- ===== src/Listener.antt =====
-- pkg/cloudprovider/aws/global_accelerator.go: the ports and the protocol of a listener, and the
-- tests for a change. `encoding/json` is a parameter: it gives the decoded ports, or an error.
pub mod Ports
pub mod Changed
use aws_global_accelerator_c.Prelude.{
  ℕ, ◌+◌, ◌%◌, ◌^◌, Text, Bool, true, false, Option, none, some, List, [], ◌∷◌, ◌++◌, map, any,
  codes, ◌==◌, leb, nat_beq, to_lower, lookup, if◌then◌else◌,
}
use aws_global_accelerator_c.Apis.{Service, ServicePort, Ingress, IngressBackend, IngressRule}

-- `gatypes.Protocol`
pub data Protocol : Type 0 where
  tcp udp : Protocol

-- `listener.Protocol != protocol`
abbrev pub protocol_differs : Protocol → Protocol → Bool
protocol_differs tcp tcp = false
protocol_differs udp udp = false
protocol_differs _ _ = true

pub record PortRange : Type 0 where
  pub from_port : ℕ
  pub to_port : ℕ

pub record Listener : Type 0 where
  pub listener_arn : Text
  pub port_ranges : List PortRange
  pub protocol : Protocol

-- The `if` in the loops over the ports of a service.
unfoldable pub next_protocol : Protocol → ServicePort → Protocol
next_protocol protocol p =
    if to_lower p.protocol == codes "udp"
    then udp
    else if to_lower p.protocol == codes "tcp"
    then tcp
    else protocol

unfoldable pub service_ports_loop : List ServicePort → List ℕ → Protocol → List ℕ × Protocol
unfolding next_protocol
service_ports_loop [] ports protocol = (ports, protocol)
service_ports_loop (p ∷ ps) ports protocol =
    service_ports_loop ps (ports ++ (p.port ∷ [])) (next_protocol protocol p)

-- `listenerForService`
unfoldable pub listener_for_service : Service → List ℕ × Protocol
unfolding service_ports_loop
listener_for_service svc = service_ports_loop svc.ports [] tcp

-- `IngressPort`: two int64.
pub record IngressPort : Type 0 where
  pub http : ℕ
  pub https : ℕ

-- `int32(v)` keeps the low 32 bits; a zero is left out.
abbrev pub nonzero_port : ℕ → List ℕ
nonzero_port v = if nat_beq v 0 then [] else (v % 2 ^ 32) ∷ []

unfoldable pub ingress_port_numbers : List IngressPort → List ℕ
ingress_port_numbers [] = []
ingress_port_numbers (i ∷ is) =
    nonzero_port i.http ++ (nonzero_port i.https ++ ingress_port_numbers is)

abbrev pub decoded_ports : Option (List IngressPort) → List ℕ
decoded_ports none = []
decoded_ports (some ports) = ingress_port_numbers ports

abbrev pub service_port : Option ℕ → List ℕ
service_port none = []
service_port (some port) = port ∷ []

abbrev pub backend_port : Option IngressBackend → List ℕ
backend_port none = []
backend_port (some backend) = service_port backend.service

unfoldable pub path_ports : List IngressBackend → List ℕ
path_ports [] = []
path_ports (backend ∷ paths) = service_port backend.service ++ path_ports paths

abbrev pub http_ports : Option (List IngressBackend) → List ℕ
http_ports none = []
http_ports (some paths) = path_ports paths

unfoldable pub rule_ports : List IngressRule → List ℕ
unfolding path_ports
rule_ports [] = []
rule_ports (rule ∷ rules) = http_ports rule.http ++ rule_ports rules

unfoldable pub listen_ports_annotation : Text
listen_ports_annotation = codes "alb.ingress.kubernetes.io/listen-ports"

abbrev pub UnmarshalPorts : Type 0
UnmarshalPorts = Text → Option (List IngressPort)

abbrev ingress_ports : UnmarshalPorts → Option Text → Ingress → List ℕ
ingress_ports unmarshal (some val) ingress = decoded_ports (unmarshal val)
ingress_ports unmarshal none ingress =
    backend_port ingress.default_backend ++ rule_ports ingress.rules

-- `listenerForIngress`
unfoldable pub listener_for_ingress : UnmarshalPorts → Ingress → List ℕ × Protocol
unfolding rule_ports ingress_port_numbers
listener_for_ingress unmarshal ingress =
    (ingress_ports unmarshal (lookup listen_ports_annotation ingress.meta.annotations) ingress, tcp)

-- `map[int]int`
abbrev pub Counts : Type 0
Counts = List (ℕ × ℕ)

-- `portCount[p]++`
unfoldable pub bump : ℕ → Counts → Counts
bump p [] = (p, 1) ∷ []
bump p ((k, n) ∷ m) = if nat_beq k p then (k, n + 1) ∷ m else (k, n) ∷ bump p m

unfoldable pub count_ports : List ℕ → Counts → Counts
unfolding bump
count_ports [] m = m
count_ports (p ∷ ps) m = count_ports ps (bump p m)

abbrev pub from_ports : List PortRange → List ℕ
from_ports = map (λ r. r.from_port)

-- The body of `listenerPortChangedFromService` and of `listenerPortChangedFromIngress`: a port that
-- is counted once is on one side only.
unfoldable pub port_changed : List ℕ → List ℕ → Bool
unfolding count_ports
port_changed listening ports =
    any (λ (k, n). leb n 1) (count_ports ports (count_ports listening []))

-- `listenerPortChangedFromService`
unfoldable pub listener_port_changed_from_service : Listener → Service → Bool
unfolding port_changed
listener_port_changed_from_service listener svc =
    port_changed (from_ports listener.port_ranges) (map (λ p. p.port) svc.ports)

-- `listenerPortChangedFromIngress`
unfoldable pub listener_port_changed_from_ingress : UnmarshalPorts → Listener → Ingress → Bool
unfolding port_changed listener_for_ingress
listener_port_changed_from_ingress unmarshal listener ingress =
    port_changed (from_ports listener.port_ranges) (listener_for_ingress unmarshal ingress).0

unfoldable pub service_protocol_loop : List ServicePort → Protocol → Protocol
unfolding next_protocol
service_protocol_loop [] protocol = protocol
service_protocol_loop (p ∷ ps) protocol = service_protocol_loop ps (next_protocol protocol p)

-- `listenerProtocolChangedFromService`
unfoldable pub listener_protocol_changed_from_service : Listener → Service → Bool
unfolding service_protocol_loop
listener_protocol_changed_from_service listener svc =
    protocol_differs listener.protocol (service_protocol_loop svc.ports tcp)

-- `listenerProtocolChangedFromIngress`
unfoldable pub listener_protocol_changed_from_ingress : Listener → Bool
listener_protocol_changed_from_ingress listener = protocol_differs listener.protocol tcp

-- The port ranges that `createListener` and `updateListener` send.
unfoldable pub port_ranges : List ℕ → List PortRange
port_ranges [] = []
port_ranges (p ∷ ps) = record { from_port = p; to_port = p } ∷ port_ranges ps
