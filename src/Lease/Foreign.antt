-- ===== src/Lease/Foreign.antt =====
-- src/pfs_core/pfs_paxos.cc: `pfs_rw_lease_renew`, and the records that test helpers plant in the
-- sector of a host that has crashed.
use polarfs.Prelude.{ℕ, ◌+◌, ◌*◌, ◌%◌, ◌^◌, ◌≡◌, refl, arith}
use polarfs.Lease.Record.{
  HostBody, HostRecord, host_magic, fl_rw, fl_prepare, sealed, Mount, ballot_generate,
  prepare_record, acquire_record,
}

module _ (crc : HostBody → ℕ) where
  -- The record of a renewal; `now` is CLOCK_REALTIME, in seconds.
  unfoldable pub renew_record : Mount → ℕ → HostRecord
  unfolding sealed
  renew_record m now = sealed crc (record {
    magic = host_magic;
    flags = fl_rw;
    host_id = m.host_id;
    generation = m.generation % 2 ^ 32;
    timestamp = now;
    mbal = m.current_ballot;
    bal = m.current_ballot;
    unused = 0;
  })

  unfoldable pub foreign_record : Mount → ℕ → ℕ → HostRecord
  unfolding sealed
  foreign_record m foreign now =
      let ballot = (1 * m.num_hosts + foreign) % 2 ^ 64 in
      sealed crc (record {
        magic = host_magic;
        flags = fl_rw;
        host_id = foreign;
        generation = 1;
        timestamp = now;
        mbal = ballot;
        bal = ballot;
        unused = 0;
      })

  -- `generation` is a uint32_t.
  unfoldable pub foreign_prepare_record : Mount → ℕ → ℕ → ℕ → HostRecord
  unfolding sealed
  foreign_prepare_record m foreign generation now = sealed crc (record {
    magic = host_magic;
    flags = fl_prepare;
    host_id = foreign;
    generation = generation % 2 ^ 32;
    timestamp = now;
    mbal = ((generation % 2 ^ 32) * m.num_hosts + foreign) % 2 ^ 64;
    bal = 0;
    unused = 0;
  })

  -- The mount of another host with the same number of hosts.
  abbrev pub mount_of : Mount → ℕ → ℕ → ℕ → Mount
  mount_of m host generation ballot = record {
    num_hosts = m.num_hosts;
    host_id = host;
    generation = generation;
    current_ballot = ballot;
  }

  -- What a renewal writes, and what the test helpers plant for another host, is just what that host's
  -- own acquire (in its first generation) or prepare (in the given one) would have written at that
  -- time, with the ballot that it would have generated.
  pub foreign-own :
      (m : Mount) (host generation now ballot : ℕ)
      → (renew_record m now ≡ acquire_record crc m now)
        × (foreign_record m host now
            ≡ acquire_record crc
                (mount_of m host 1 (ballot_generate (mount_of m host 1 ballot)))
                now)
        × (foreign_prepare_record m host (generation % 2 ^ 32) now
            ≡ prepare_record crc (mount_of m host (generation % 2 ^ 32) ballot) now)
  unfolding renew_record foreign_record foreign_prepare_record acquire_record prepare_record
      ballot_generate
  foreign-own m host generation now ballot = (refl, refl, planted)
    where
      planted :
          foreign_prepare_record m host (generation % 2 ^ 32) now
          ≡ prepare_record crc (mount_of m host (generation % 2 ^ 32) ballot) now
      planted = rw (twice generation) refl
        where
          twice : (g : ℕ) → g % 2 ^ 32 % 2 ^ 32 ≡ g % 2 ^ 32
          twice g = omega arith
