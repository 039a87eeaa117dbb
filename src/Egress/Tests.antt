-- ===== src/Egress/Tests.antt =====
-- A gate for public data to one host, and a network that counts what it is sent.
use kanbrick_v.Common.{
  ℕ, suc, ◌≡◌, ◌↔◌, refl, Text, codes, List, [], ◌∷◌, ◌++◌, true, ok, map, retain,
}
use kanbrick_v.Core.Clearance.{l2, l5, satisfies}
use kanbrick_v.Providers.{anthropic}
use kanbrick_v.Egress.Policy.{
  RoleOverlay, no_ceilings, with_ceiling, effective_clearance, public_data, restricted, deny_all,
  allow_pair, can_send, no_hosts, allow_host, is_allowed, min_clearance,
}
use kanbrick_v.Egress.Gate.{EgressGate, authorize, authorize-eq-ok_iff}
use kanbrick_v.Egress.Transport.{
  HttpRequest, HttpResponse, HttpTransport, EgressRecord, recording_audit, GatedTransport,
}
use kanbrick_v.Egress.Audit.{network_after, send_all, may_send, audited, gated_calls}

abbrev overlay : RoleOverlay
overlay = with_ceiling (codes "temp") l2 no_ceilings

abbrev gate : EgressGate
gate = record {
  overlay = overlay;
  allowlist = allow_host (codes "API.x") no_hosts;
  dlp = allow_pair public_data anthropic deny_all;
}

abbrev answer : HttpResponse
answer = record { status = 200; body = [] }

abbrev network : HttpTransport ℕ
network = record {
  transport_send = λ r n. (ok answer, suc n);
  transport_streaming = λ r n. (ok 200, codes "a" ∷ codes "b" ∷ [], suc n);
}

abbrev wire : GatedTransport (List EgressRecord) ℕ
wire = record {
  inner = network;
  gate = gate;
  ctx = record { clearance = l5; roles = []; class = public_data; provider = anthropic };
  audit = recording_audit;
}

-- The same for restricted data, which the gate does not let out.
abbrev closed_wire : GatedTransport (List EgressRecord) ℕ
closed_wire = record wire {
  ctx = record { clearance = l5; roles = []; class = restricted; provider = anthropic };
}

abbrev request : Text → HttpRequest
request url = record { method = codes "POST"; url = url; headers = []; body = [] }

abbrev inside : HttpRequest
inside = request (codes "https://api.x/v1")

abbrev outside : HttpRequest
outside = request (codes "https://evil.y/")

authorize-eq-ok_iff_example :
    (authorize gate l5 (codes "temp" ∷ []) public_data anthropic (codes "api.x") ≡ ok l2) ↔ (
      (l2 ≡ effective_clearance overlay l5 (codes "temp" ∷ []))
      × (satisfies l2 (min_clearance public_data) ≡ true)
      × (is_allowed gate.allowlist (codes "api.x") ≡ true)
      × (can_send gate.dlp public_data anthropic ≡ true))
authorize-eq-ok_iff_example =
    authorize-eq-ok_iff gate l5 (codes "temp" ∷ []) public_data anthropic (codes "api.x") l2

gated_calls_example : send_all wire (inside ∷ outside ∷ inside ∷ []) [] 0 ≡ (
  [] ++ map (audited wire) (inside ∷ outside ∷ inside ∷ []),
  network_after network (retain (may_send wire) (inside ∷ outside ∷ inside ∷ [])) 0,
)
gated_calls_example = gated_calls wire (inside ∷ outside ∷ inside ∷ []) [] 0 refl
