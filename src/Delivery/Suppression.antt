-- ===== src/Delivery/Suppression.antt =====
-- client_preconditions.go: what a client with conditions receives.
use mathlib.Core.List.{append_assoc, append-nil}
use httpcache_kit.Common.{
  ℕ, ◌≡◌, refl, sym, ap, ◌∙◌, Bool, true, false, none, some, List, [], ◌∷◌, ◌++◌, nat_eq, arith,
  Bool-cases, inl, inr, if◌then◌else◌,
}
use httpcache_kit.Http.Headers.{Headers}
use httpcache_kit.Keys.Defs.{Request}
use httpcache_kit.Delivery.Defs.{Sent, head, chunk}
use httpcache_kit.Delivery.Conditions.{
  Probe, PreconditionWriter, new_writer, commit_header, probed, suppresses, write_status,
  defer_staging_headers, bodyless, finish_trailers, finish_staging_headers, write_body, Use, change,
  body, use_one, use_all,
}

-- The header map behind the changes, and the parts of the body.
unfoldable pub last_header : Headers → List Use → Headers
last_header h [] = h
last_header h (change own ∷ us) = last_header own us
last_header h (body bytes ∷ us) = last_header h us

unfoldable pub parts : List Use → List Sent
parts [] = []
parts (change own ∷ us) = parts us
parts (body bytes ∷ us) = chunk bytes ∷ parts us

use_all_suppressed :
    (us : List Use) (w : PreconditionWriter)
    → w.suppress ≡ true
    → use_all us w ≡ record w { header = last_header w.header us }
unfolding use_all use_one write_body last_header
use_all_suppressed [] w p = refl
use_all_suppressed (change h ∷ us) w p = use_all_suppressed us (record w { header = h }) p
use_all_suppressed (body bytes ∷ us) w p =
    let same : write_body bytes w ≡ w = ground arith in
    ap (use_all us) same ∙ use_all_suppressed us w p

use_all_open :
    (us : List Use) (w : PreconditionWriter)
    → w.suppress ≡ false
    → ((use_all us w).sent ≡ w.sent ++ parts us)
      × ((use_all us w).pending ≡ w.pending)
      × ((use_all us w).suppress ≡ false)
unfolding use_all use_one parts
use_all_open [] w p = (sym (append-nil w.sent), refl, p)
use_all_open (change h ∷ us) w p = use_all_open us (record w { header = h }) p
use_all_open (body bytes ∷ us) w p =
    let w' : PreconditionWriter = record w { sent = w.sent ++ (chunk bytes ∷ []) } in
    let same : write_body bytes w ≡ w' = unfold write_body in ground arith in
    let rest = use_all_open us w' p in
    rw (use_all, use_one, same)
      (rest.0 ∙ append_assoc w.sent (chunk bytes ∷ []) (parts us), rest.1, rest.2)

-- The whole of a response: the status, what follows it, and the end of staging.
unfoldable pub deliver :
    (Request → Headers → Probe) → Bool → ℕ → List Use → PreconditionWriter → PreconditionWriter
deliver serve deferred status us w =
    finish_staging_headers
      (use_all us (write_status serve status (if deferred then defer_staging_headers w else w)))

write_status_held :
    (serve : Request → Headers → Probe) (status : ℕ) (r : Request) (live : Headers)
    → suppresses serve status (new_writer r live) ≡ true
    → write_status serve status (defer_staging_headers (new_writer r live))
      ≡ record (new_writer r live) {
        suppress = true;
        defer_staging = true;
        pending = some (probed serve (new_writer r live));
      }
unfolding write_status new_writer defer_staging_headers commit_header suppresses probed
write_status_held serve status r live s = ground arith

write_status_refused :
    (serve : Request → Headers → Probe) (status : ℕ) (r : Request) (live : Headers)
    → suppresses serve status (new_writer r live) ≡ true
    → write_status serve status (new_writer r live) ≡ record (new_writer r live) {
      suppress = true;
      live = (probed serve (new_writer r live)).header;
      sent =
          head (probed serve (new_writer r live)).status (probed serve (new_writer r live)).header
          ∷ [];
    }
unfolding write_status new_writer commit_header suppresses probed
write_status_refused serve status r live s = ground arith

write_status_open :
    (serve : Request → Headers → Probe) (deferred : Bool) (status : ℕ) (r : Request)
    (live : Headers)
    → suppresses serve status (new_writer r live) ≡ false
    → write_status serve status
        (if deferred then defer_staging_headers (new_writer r live) else new_writer r live)
      ≡ record (new_writer r live) { defer_staging = deferred; sent = head status live ∷ [] }
unfolding write_status new_writer defer_staging_headers commit_header suppresses probed
write_status_open serve true status r live s = ground arith
write_status_open serve false status r live s = ground arith

finish_nothing :
    (w : PreconditionWriter) → w.pending ≡ none → (finish_staging_headers w).sent ≡ w.sent
unfolding finish_staging_headers finish_trailers
finish_nothing w p = ground arith

-- A client with conditions gets one header, whether or not it waits for the end of staging: the
-- answer to its conditions, without a body, if they hold back a successful response, and otherwise
-- the response as it is, with all parts of its body.
pub sent-deliver :
    (serve : Request → Headers → Probe) (deferred : Bool) (status : ℕ) (us : List Use) (r : Request)
    (live : Headers)
    → (deliver serve deferred status us (new_writer r live)).sent ≡ (
        if suppresses serve status (new_writer r live)
        then head (probed serve (new_writer r live)).status (
            if deferred
            then bodyless (last_header live us) (probed serve (new_writer r live)).header
            else (probed serve (new_writer r live)).header)
          ∷ []
        else head status live ∷ parts us)
unfolding deliver
sent-deliver serve deferred status us r live =
    let n = new_writer r live in
    elim (Bool-cases (suppresses serve status n)) [
      | inr s ↦
          let w : PreconditionWriter = record n {
            defer_staging = deferred;
            sent = head status live ∷ [];
          } in
          let all = use_all_open us w (unfold new_writer in refl) in
          rw (s, write_status_open serve deferred status r live s)
            (finish_nothing (use_all us w) (all.1 ∙ unfold new_writer in refl) ∙ all.0)
      | inl s ↦ elim (Bool-cases deferred) [
        | inl d ↦
            let w : PreconditionWriter = record n {
              suppress = true;
              defer_staging = true;
              pending = some (probed serve n);
            } in
            rw (s, d, write_status_held serve status r live s, use_all_suppressed us w refl)
              (unfold finish_staging_headers commit_header new_writer in refl)
        | inr d ↦
            let w : PreconditionWriter = record n {
              suppress = true;
              live = (probed serve n).header;
              sent = head (probed serve n).status (probed serve n).header ∷ [];
            } in
            rw (s, d, write_status_refused serve status r live s, use_all_suppressed us w refl)
              (finish_nothing (record w { header = last_header w.header us })
                (unfold new_writer in refl))
      ]
    ]
