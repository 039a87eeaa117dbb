-- ===== src/Egress/Transport.antt =====
-- kanbrick-egress/src/lib.rs, `GatedTransport` and its audit sinks; kanbrick-providers/src/wire.rs,
-- the requests and responses that a transport moves.
use kanbrick_v.Common.{
  ℕ, Text, List, [], ◌∷◌, ◌++◌, Bool, true, false, Option, none, some, Result, ok, err, leb, ltb,
  ◌&&◌,
}
use mathlib.Core.List.{foldl}
use kanbrick_v.Core.Clearance.{ClearanceLevel}
use kanbrick_v.Providers.{ProviderKind, ProviderError, unsupported}
use kanbrick_v.Egress.Policy.{DataClass}
use kanbrick_v.Egress.Host.{host_of}
use kanbrick_v.Egress.Gate.{EgressDenial, denial_text, EgressGate, authorize}

pub record HttpRequest : Type 0 where
  pub method : Text
  pub url : Text
  pub headers : List (Text × Text)
  pub body : List ℕ

pub record HttpResponse : Type 0 where
  pub status : ℕ
  pub body : List ℕ

-- `HttpResponse::is_success`
unfoldable pub is_success : HttpResponse → Bool
is_success r = leb 200 r.status && ltb r.status 300

-- The trait `HttpTransport` over the state `N` of the network: what it does is the implementor's.
-- A streaming call folds each line of the response into an accumulator.
pub record HttpTransport (N : Type 0) : Type 0 where
  pub transport_send : HttpRequest → N → Result ProviderError HttpResponse × N
  pub transport_streaming : HttpRequest → N → Result ProviderError ℕ × List Text × N

pub record EgressRecord : Type 0 where
  pub allowed : Bool
  pub class : DataClass
  pub provider : ProviderKind
  pub host : Text
  pub denial : Option Text

-- The trait `EgressAuditSink` over the state `A` of the sink, and the two sinks of the crate.
abbrev pub EgressAuditSink : Type 0 → Type 0
EgressAuditSink A = EgressRecord → A → A

unfoldable pub no_audit : EgressAuditSink (Unit {0})
no_audit r a = a

unfoldable pub recording_audit : EgressAuditSink (List EgressRecord)
recording_audit r log = log ++ (r ∷ [])

pub record EgressContext : Type 0 where
  pub clearance : ClearanceLevel
  pub roles : List Text
  pub class : DataClass
  pub provider : ProviderKind

pub record GatedTransport (A : Type 0) (N : Type 0) : Type 0 where
  pub inner : HttpTransport N
  pub gate : EgressGate
  pub ctx : EgressContext
  pub audit : EgressAuditSink A

abbrev pub outcome_of : Result EgressDenial ClearanceLevel → Result ProviderError (Unit {0})
outcome_of (ok _) = ok tt
outcome_of (err denial) = err (unsupported (denial_text denial))

module _ {A : Type 0} {N : Type 0} where
  -- The gate's answer for a request.
  unfoldable pub decide_request :
      GatedTransport A N → HttpRequest → Result EgressDenial ClearanceLevel
  decide_request t request =
      authorize t.gate t.ctx.clearance t.ctx.roles t.ctx.class t.ctx.provider (host_of request.url)

  abbrev pub record_of :
      GatedTransport A N → HttpRequest → Result EgressDenial ClearanceLevel → EgressRecord
  record_of t request (ok _) = record {
    allowed = true;
    class = t.ctx.class;
    provider = t.ctx.provider;
    host = host_of request.url;
    denial = none;
  }
  record_of t request (err denial) = record {
    allowed = false;
    class = t.ctx.class;
    provider = t.ctx.provider;
    host = host_of request.url;
    denial = some (denial_text denial);
  }

  unfoldable pub guard_request :
      GatedTransport A N → HttpRequest → A → Result ProviderError (Unit {0}) × A
  guard_request t request a = (
    outcome_of (decide_request t request),
    t.audit (record_of t request (decide_request t request)) a,
  )

  unfoldable pub send :
      GatedTransport A N → HttpRequest → A → N → Result ProviderError HttpResponse × A × N
  unfolding guard_request
  send t request a n =
      let (verdict, a') = guard_request t request a in
      elim verdict [
        | ok _ ↦ let (r, n') = t.inner.transport_send request n in (r, a', n')
        | err e ↦ (err e, a', n)
      ]

  unfoldable pub send_streaming :
      {L : Type 0}
      → GatedTransport A N
      → (Text → L → L)
      → HttpRequest
      → L
      → A
      → N
      → Result ProviderError ℕ × L × A × N
  unfolding guard_request
  send_streaming t on_line request l a n =
      let (verdict, a') = guard_request t request a in
      elim verdict [
        | ok _ ↦
            let (r, lines, n') = t.inner.transport_streaming request n in
            (r, foldl (λ acc line. on_line line acc) l lines, a', n')
        | err e ↦ (err e, l, a', n)
      ]
