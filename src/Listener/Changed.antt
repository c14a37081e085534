-- ===== src/Listener/Changed.antt =====
-- When the controller sees a listener as changed, and when it does not.
use aws_global_accelerator_c.Prelude.{
  ℕ, ◌≤◌, false, List, [], ◌∷◌, ◌++◌, map, ◌≡◌, ◌↔◌, ◌∙◌, refl, ap, arith, append_assoc, append-nil,
}
use aws_global_accelerator_c.Apis.{Service, ServicePort, Ingress}
use aws_global_accelerator_c.Listener.{
  Protocol, tcp, udp, Listener, protocol_differs, service_ports_loop, listener_for_service,
  UnmarshalPorts, listener_for_ingress, next_protocol, from_ports, port_changed, port_ranges,
  service_protocol_loop, listener_port_changed_from_service, listener_port_changed_from_ingress,
  listener_protocol_changed_from_service, listener_protocol_changed_from_ingress,
}
use aws_global_accelerator_c.Listener.Ports.{count, port_changed_iff}

-- No port occurs twice.
abbrev pub NoRepeat : List ℕ → Type 0
NoRepeat ports = (p : ℕ) → count p ports ≤ 1

-- Where neither side repeats a port, the test finds no change exactly when both have the same
-- ports, in any order.
pub port_changed_iff_same_ports :
    (listening ports : List ℕ)
    → NoRepeat listening
    → NoRepeat ports
    → (port_changed listening ports ≡ false) ↔ ((p : ℕ) → count p listening ≡ count p ports)
port_changed_iff_same_ports listening ports a b =
    let f = port_changed_iff listening ports in
    (λ h p. omega (arith, a p, b p, f.0 h p), λ h. f.1 (λ p e. omega (arith, h p)))

-- A port that a service has twice, as DNS has 53 for TCP and for UDP, is never missed: whatever the
-- listener listens on, adding such a port to the service is not seen as a change.
pub port_changed_misses_repeated :
    (listening : List ℕ) (q : ℕ) → port_changed listening (q ∷ q ∷ listening) ≡ false
port_changed_misses_repeated listening q =
    (port_changed_iff listening (q ∷ q ∷ listening)).1 (λ p e. ground arith)

service_ports_loop_lem :
    (ps : List ServicePort) (ports : List ℕ) (protocol : Protocol)
    → service_ports_loop ps ports protocol
      ≡ (ports ++ map (λ p. p.port) ps, service_protocol_loop ps protocol)
unfolding service_ports_loop service_protocol_loop
service_ports_loop_lem [] ports protocol = rw append-nil
service_ports_loop_lem (p ∷ ps) ports protocol =
    service_ports_loop_lem ps (ports ++ (p.port ∷ [])) (next_protocol protocol p) ∙ rw append_assoc

-- The loop of `listenerForService` collects the ports in their order, and the protocol that
-- `listenerProtocolChangedFromService` computes.
listener_for_service_lem :
    (svc : Service)
    → listener_for_service svc ≡ (map (λ p. p.port) svc.ports, service_protocol_loop svc.ports tcp)
unfolding listener_for_service
listener_for_service_lem svc = service_ports_loop_lem svc.ports [] tcp

from_ports-port_ranges : (ports : List ℕ) → from_ports (port_ranges ports) ≡ ports
unfolding port_ranges
from_ports-port_ranges [] = refl
from_ports-port_ranges (p ∷ ps) = ap (λ rest. p ∷ rest) (from_ports-port_ranges ps)

protocol_differs_self : (p : Protocol) → protocol_differs p p ≡ false
protocol_differs_self tcp = refl
protocol_differs_self udp = refl

port_changed_self : (ports : List ℕ) → port_changed ports ports ≡ false
port_changed_self ports = (port_changed_iff ports ports).1 (λ p e. omega arith)

-- A listener with the protocol and the port ranges that are sent for a service is not changed from
-- that service: creating or updating it is not followed by another update.
pub listener_unchanged_for_service :
    (svc : Service) (l : Listener)
    → l.protocol ≡ (listener_for_service svc).1
    → l.port_ranges ≡ port_ranges (listener_for_service svc).0
    → (listener_protocol_changed_from_service l svc ≡ false)
      × (listener_port_changed_from_service l svc ≡ false)
unfolding listener_protocol_changed_from_service listener_port_changed_from_service
listener_unchanged_for_service svc l p r =
    let both = listener_for_service_lem svc in
    (
      rw p (rw both (protocol_differs_self (service_protocol_loop svc.ports tcp))),
      rw r (rw both (rw from_ports-port_ranges (port_changed_self (map (λ p. p.port) svc.ports)))),
    )

-- The same for an ingress.
pub listener_unchanged_for_ingress :
    (unmarshal : UnmarshalPorts) (ingress : Ingress) (l : Listener)
    → l.protocol ≡ (listener_for_ingress unmarshal ingress).1
    → l.port_ranges ≡ port_ranges (listener_for_ingress unmarshal ingress).0
    → (listener_protocol_changed_from_ingress l ≡ false)
      × (listener_port_changed_from_ingress unmarshal l ingress ≡ false)
unfolding listener_protocol_changed_from_ingress listener_port_changed_from_ingress
listener_unchanged_for_ingress unmarshal ingress l p r =
    let ports = (listener_for_ingress unmarshal ingress).0 in
    (rw p refl, rw r (rw from_ports-port_ranges (port_changed_self ports)))
