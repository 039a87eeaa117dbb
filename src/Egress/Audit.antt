-- ===== src/Egress/Audit.antt =====
-- The gated transport against its inner transport: what is sent, and what is recorded.
use kanbrick_v.Common.{
  Text, List, [], ◌∷◌, ◌++◌, Bool, ok, err, ◌≡◌, refl, arith, map, retain, if◌then◌else◌, is_ok,
  append_assoc, append-nil, Bool-cases, inl, inr, sym, ap, ◌∙◌,
}
use kanbrick_v.Core.Clearance.{ClearanceLevel}
use kanbrick_v.Providers.{unsupported}
use kanbrick_v.Egress.Gate.{EgressDenial, denial_text}
use kanbrick_v.Egress.Transport.{
  HttpRequest, HttpTransport, EgressRecord, recording_audit, GatedTransport, decide_request,
  record_of, send, send_streaming,
}

record_all {ℓ} : {A : Type ℓ} → (EgressRecord → A → A) → List EgressRecord → A → A
record_all sink [] a = a
record_all sink (r ∷ rs) a = record_all sink rs (sink r a)

-- The recorder keeps every decision, in order.
record_all-recording : (rs log : List EgressRecord) → record_all recording_audit rs log ≡ log ++ rs
unfolding record_all recording_audit
record_all-recording [] log = sym (append-nil log)
record_all-recording (r ∷ rs) log =
    record_all-recording rs (log ++ (r ∷ [])) ∙ append_assoc log (r ∷ []) rs

-- A sequence of calls of a bare transport, and the state of the network behind it.
abbrev pub network_after : {N : Type 0} → HttpTransport N → List HttpRequest → N → N
network_after inner [] n = n
network_after inner (r ∷ rs) n = network_after inner rs (inner.transport_send r n).1

module _ {A : Type 0} {N : Type 0} where
  -- A sequence of calls of a gated transport.
  abbrev pub send_all : GatedTransport A N → List HttpRequest → A → N → A × N
  send_all t [] a n = (a, n)
  send_all t (r ∷ rs) a n = let (_, a', n') = send t r a n in send_all t rs a' n'

  abbrev pub may_send : GatedTransport A N → HttpRequest → Bool
  may_send t r = is_ok (decide_request t r)

  abbrev pub audited : GatedTransport A N → HttpRequest → EgressRecord
  audited t r = record_of t r (decide_request t r)

  send_audit :
      (t : GatedTransport A N) (r : HttpRequest) (a : A) (n : N)
      → (send t r a n).1 ≡ t.audit (audited t r) a
  unfolding send
  send_audit t r a n = ground arith

  send_network :
      (t : GatedTransport A N) (r : HttpRequest) (a : A) (n : N)
      → (send t r a n).2 ≡ (if may_send t r then (t.inner.transport_send r n).1 else n)
  unfolding send
  send_network t r a n = ground arith

  send_all-eq :
      (t : GatedTransport A N) (rs : List HttpRequest) (a : A) (n : N)
      → send_all t rs a n ≡ (
        record_all t.audit (map (audited t) rs) a,
        network_after t.inner (retain (may_send t) rs) n,
      )
  unfolding record_all
  send_all-eq t [] a n = refl
  send_all-eq t (r ∷ rs) a n = elim (Bool-cases (may_send t r)) [
    | inl yes' ↦
        rw (send_audit t r a n, send_network t r a n, yes')
          (send_all-eq t rs (t.audit (audited t r) a) (t.inner.transport_send r n).1)
    | inr no' ↦
        rw (send_audit t r a n, send_network t r a n, no')
          (send_all-eq t rs (t.audit (audited t r) a) n)
  ]

-- Over any sequence of calls behind a recording sink, the log grows by one record for each request,
-- in order, allowed or denied; and the network sees exactly the requests that the gate allows, in
-- order, as if only those had been sent on the bare transport.
pub gated_calls :
    {N : Type 0} (t : GatedTransport (List EgressRecord) N) (rs : List HttpRequest)
    (log : List EgressRecord) (n : N)
    → t.audit ≡ recording_audit
    → send_all t rs log n
      ≡ (log ++ map (audited t) rs, network_after t.inner (retain (may_send t) rs) n)
gated_calls t rs log n h =
    send_all-eq t rs log n
    ∙ ap
        (λ sink. (
          record_all sink (map (audited t) rs) log,
          network_after t.inner (retain (may_send t) rs) n,
        ))
        h
    ∙ ap (λ l. (l, network_after t.inner (retain (may_send t) rs) n))
        (record_all-recording (map (audited t) rs) log)

-- A denied call returns the denial as the provider's `Unsupported` error, and an allowed one
-- returns what the inner transport returns.
pub send_result :
    {A N : Type 0} (t : GatedTransport A N) (r : HttpRequest) (a : A) (n : N)
    → ((l : ClearanceLevel)
        → decide_request t r ≡ ok l
        → (send t r a n).0 ≡ (t.inner.transport_send r n).0)
      × ((d : EgressDenial)
          → decide_request t r ≡ err d
          → (send t r a n).0 ≡ err (unsupported (denial_text d)))
unfolding send
send_result t r a n = ground arith

-- A denied call, streaming or not, returns the denial as the provider's `Unsupported` error; it
-- leaves the network alone, delivers no line and records the denial.
pub send_denied :
    {A N L : Type 0} (t : GatedTransport A N) (on_line : Text → L → L) (r : HttpRequest) (l : L)
    (a : A) (n : N) (d : EgressDenial)
    → decide_request t r ≡ err d
    → (send t r a n ≡ (err (unsupported (denial_text d)), t.audit (record_of t r (err d)) a, n))
      × (send_streaming t on_line r l a n
          ≡ (err (unsupported (denial_text d)), l, t.audit (record_of t r (err d)) a, n))
unfolding send send_streaming
send_denied t on_line r l a n d h = ground arith
