-- ===== src/Client/SameServer.antt =====
-- What `ParseRejectMessage` leaves of a server: its address, its family and its list.
use nrp_reference.Base.{
  ℕ, zero, suc, ◌≡◌, refl, ◌∙◌, subst, Bool, [], ◌∷◌, Option, none, some, ok, >>=-eq-ok, arith,
}
use nrp_reference.Protocol.Layout.{Bytes, read_header}
use nrp_reference.ServerRecord.{ServerRecord}
use nrp_reference.Config.Steps.{SameServer}
use nrp_reference.Client.Rejects.{disable, apply_rejection, apply_rejections, parse_reject_message}

SameServer-refl : (s : ServerRecord) → SameServer s s
SameServer-refl s = record { host = refl; ipv6 = refl; probationary = refl }

SameServer-trans : (s t u : ServerRecord) → SameServer s t → SameServer t u → SameServer s u
SameServer-trans s t u h k = record {
  host = k.host ∙ h.host;
  ipv6 = k.ipv6 ∙ h.ipv6;
  probationary = k.probationary ∙ h.probationary;
}

apply_rejection-SameServer : (t r : ℕ) (s : ServerRecord) → SameServer s (apply_rejection t r s)
unfolding apply_rejection disable
apply_rejection-SameServer t r s = record {
  host = ground arith;
  ipv6 = ground arith;
  probationary = ground arith;
}

apply_rejections-SameServer :
    (n : ℕ) (rej : Bytes) (s s' : ServerRecord) → apply_rejections n rej s ≡ ok s' → SameServer s s'
unfolding apply_rejections
apply_rejections-SameServer zero rej s s' h =
    subst (SameServer s) (ground arith) (SameServer-refl s)
apply_rejections-SameServer (suc n) (t ∷ r ∷ rest) s s' h =
    SameServer-trans s (apply_rejection t r s) s' (apply_rejection-SameServer t r s)
      (apply_rejections-SameServer n rest (apply_rejection t r s) s' h)
apply_rejections-SameServer (suc n) (t ∷ []) s s' h = cc
apply_rejections-SameServer (suc n) [] s s' h = cc

pub parse_reject_message-SameServer :
    (s s' : ServerRecord) (msg : Option Bytes) (r : Bool)
    → parse_reject_message s msg ≡ ok (s', r)
    → SameServer s s'
unfolding parse_reject_message
parse_reject_message-SameServer s s' none r h =
    subst (SameServer s) (ground arith) (SameServer-refl s)
parse_reject_message-SameServer s s' (some msg) r h =
    let (hdr, headed, h₁) = >>=-eq-ok (read_header msg) _ h in
    let (t, applied, h₂) = >>=-eq-ok (apply_rejections hdr.count hdr.content s) _ h₁ in
    subst (SameServer s) (ground arith)
      (apply_rejections-SameServer hdr.count hdr.content s t applied)
