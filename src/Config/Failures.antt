-- ===== src/Config/Failures.antt =====
-- When `IncrementServerFailCount` gives a server up.
use nrp_reference.Base.{ℕ, ◌+◌, ◌≡◌, refl, ok, arith, leb, if◌then◌else◌}
use nrp_reference.MruCache
use nrp_reference.ServerRecord.{ServerRecord, server_eq}
use nrp_reference.Config.State.{Config}
use nrp_reference.Config.Servers.{ServerRef}
use nrp_reference.Config.Update.{load, store, back_off, drop_server, increment_server_fail_count}

-- The record after one more failure: `retryTime` is the old one.
abbrev pub failed_record : ServerRecord → ℕ → ServerRecord
failed_record old now = record old { failure_count = old.failure_count + 1; last_access_time = now }

-- The configuration after it: the record is written back, and the server is banned if it was not.
abbrev pub failed_config : Config → ServerRef → ServerRecord → ℕ → ℕ → Config
failed_config c ref old now ban_time =
    let failed = store c ref (failed_record old now) in
    record failed {
      banned_servers =
          MruCache.add server_eq failed.banned_servers (failed_record old now) ban_time;
    }

failed_same :
    (old : ServerRecord) (now : ℕ)
    → (record old {
      failure_count = old.failure_count + 1;
      last_access_time = now;
      retry_time = back_off old.retry_time;
    })
      ≡ failed_record old now
failed_same old now = ground arith

-- Up to the third failure in a row the server's record is only updated, with its `retryTime` as it was; at
-- the fourth and every later one it is put among the banned servers and dropped from its list.
pub increment_server_fail_count_lem :
    (c : Config) (ref : ServerRef) (old : ServerRecord) (now ban_time : ℕ)
    → load c ref ≡ ok old
    → increment_server_fail_count c ref now ban_time ≡ (
        if leb 3 old.failure_count
        then drop_server (failed_record old now) (failed_config c ref old now ban_time)
        else ok (store c ref (failed_record old now)))
unfolding increment_server_fail_count
increment_server_fail_count_lem c ref old now ban_time found =
    let e : leb 5 (old.failure_count + 1 + 1) ≡ leb 3 old.failure_count = ground arith in
    rw (found, failed_same old now, e) refl
