-- ===== src/Config/Tries.antt =====
-- Failures of one server in a row, before `IncrementServerFailCount` gives it up.
use nrp_reference.Base.{
  ℕ, zero, suc, ◌+◌, ◌≤◌, ◌≡◌, refl, false, ◌∙◌, ok, Outcome, ◌>>=◌, arith, leb,
}
use nrp_reference.ServerRecord.{ServerRecord}
use nrp_reference.Config.State.{Config}
use nrp_reference.Config.Servers.{ServerRef, in_active, in_probationary, in_configured}
use nrp_reference.Config.Update.{load, store, increment_server_fail_count}
use nrp_reference.Config.Steps.{SameServer}
use nrp_reference.Config.Failures.{failed_record, increment_server_fail_count_lem}
use nrp_reference.Config.Promotion.{deref-set}

load-store :
    (c : Config) (ref : ServerRef) (old s : ServerRecord)
    → load c ref ≡ ok old
    → load (store c ref s) ref ≡ ok s
unfolding load store
load-store c (in_active i) old s found = deref-set c.active_servers i old s found
load-store c (in_probationary i) old s found = deref-set c.probationary_servers i old s found
load-store c in_configured old s found = deref-set c.configured_servers 0 old s found

store-banned :
    (c : Config) (ref : ServerRef) (s : ServerRecord)
    → (store c ref s).banned_servers ≡ c.banned_servers
unfolding store
store-banned c (in_active i) s = refl
store-banned c (in_probationary i) s = refl
store-banned c in_configured s = refl

-- `n` failures in a row, the last at the time `now 0`.
abbrev pub fail_again : ℕ → (ℕ → ℕ) → ServerRef → Config → Outcome Config
fail_again zero now ref c = ok c
fail_again (suc n) now ref c =
    increment_server_fail_count c ref (now n) (now n) >>= fail_again n now ref

-- The server is where it was, with `n` more failures, and is still to be asked again after the same time.
pub record StillThere (n : ℕ) (ref : ServerRef) (c c' : Config) (old : ServerRecord) : Type 0 where
  pub server : ServerRecord
  pub found : load c' ref ≡ ok server
  pub same : SameServer old server
  pub failures : server.failure_count ≡ old.failure_count + n
  pub retry_time : server.retry_time ≡ old.retry_time
  pub banned : c'.banned_servers ≡ c.banned_servers

-- A server that fails until it has failed three times in a row stays where it is in its list, with its failures
-- counted and its retry time as it was, and nobody is banned for it.
pub fail_again-StillThere :
    (n : ℕ) (now : ℕ → ℕ) (ref : ServerRef) (c : Config) (old : ServerRecord)
    → load c ref ≡ ok old
    → old.failure_count + n ≤ 3
    → (c' : Config) × (fail_again n now ref c ≡ ok c') × StillThere n ref c c' old
fail_again-StillThere zero now ref c old found few = (
  c,
  refl,
  record {
    server = old;
    found = found;
    same = record { host = refl; ipv6 = refl; probationary = refl };
    failures = omega arith;
    retry_time = refl;
    banned = refl;
  },
)
fail_again-StillThere (suc n) now ref c old found few =
    let once = failed_record old (now n) in
    let tolerated : leb 3 old.failure_count ≡ false = ground arith in
    let failed : increment_server_fail_count c ref (now n) (now n) ≡ ok (store c ref once) =
      increment_server_fail_count_lem c ref old (now n) (now n) found ∙ simp tolerated refl in
    let (c', again, there) =
      fail_again-StillThere n now ref (store c ref once) once (load-store c ref old once found)
        (omega arith) in
    (
      c',
      rw failed again,
      record {
        server = there.server;
        found = there.found;
        same = record {
          host = there.same.host;
          ipv6 = there.same.ipv6;
          probationary = there.same.probationary;
        };
        failures = omega (arith, there.failures);
        retry_time = there.retry_time;
        banned = there.banned ∙ store-banned c ref once;
      },
    )
