-- ===== src/Config/Steps.antt =====
-- The operations by which the two threads change `NrpdConfig`, as steps, and sequences of them.
use nrp_reference.Base.{ℕ, ◌≡◌, Bool, Option, ok}
use nrp_reference.MruCache
use nrp_reference.Protocol.Layout.{Bytes}
use nrp_reference.ServerRecord.{ServerRecord}
use nrp_reference.Config.State.{Config}
use nrp_reference.Config.Servers.{ServerRef, active_server_count, get_next_server}
use nrp_reference.Config.Update.{
  load, store, increment_server_fail_count, mark_server_successful, add_servers_from_message,
}

-- The address of a server and its list, which `ParseRejectMessage` leaves alone.
pub record SameServer (s t : ServerRecord) : Type 0 where
  pub host : t.host ≡ s.host
  pub ipv6 : t.ipv6 ≡ s.ipv6
  pub probationary : t.probationary ≡ s.probationary

-- One operation that returns. The server thread only counts; the rest is done by the client thread, which
-- reaches the record of a server through the reference that it got.
pub data Step : Config → Config → Type 0 where
  counted : (c : Config) (msg_type : ℕ) → Step c (active_server_count c msg_type).0
  chosen : (c c' : Config) (ref : ServerRef) → get_next_server c ≡ ok (c', ref) → Step c c'
  failed :
      (c c' : Config) (ref : ServerRef) (now ban_time : ℕ)
      → increment_server_fail_count c ref now ban_time ≡ ok c'
      → Step c c'
  succeeded :
      (c c' : Config) (ref : ServerRef) (now : ℕ)
      → mark_server_successful c ref now ≡ ok c'
      → Step c c'
  added :
      (c c' : Config) (msg : Option Bytes) (now : ℕ → ℕ) (result : Bool)
      → add_servers_from_message c msg now ≡ ok (c', result)
      → Step c c'
  rejected :
      (c : Config) (ref : ServerRef) (s t : ServerRecord)
      → load c ref ≡ ok s
      → SameServer s t
      → Step c (store c ref t)
  -- A run of the cleaner thread of the banned servers.
  cleaned :
      (c : Config) (now : ℕ → ℕ) (end : ℕ)
      → Step c (record c { banned_servers = (MruCache.clean c.banned_servers now end).0 })

pub data Steps : Config → Config → Type 0 where
  done : (c : Config) → Steps c c
  then_step : {c d e : Config} → Steps c d → Step d e → Steps c e

pub Steps-append : {c d e : Config} → Steps c d → Steps d e → Steps c e
Steps-append before (done d) = before
Steps-append before (then_step after step) = then_step (Steps-append before after) step

pub one-Step : {c d : Config} → Step c d → Steps c d
one-Step {c} step = then_step (done c) step
