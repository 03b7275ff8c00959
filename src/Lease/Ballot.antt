-- ===== src/Lease/Ballot.antt =====
-- src/pfs_core/pfs_paxos.cc, `pfs_ballot_generate`: ballots of different hosts differ.
use native.Mathlib.Decide.{dec_lt}
use mathlib.Core.Path.{ap₂}
use polarfs.Prelude.{ℕ, ◌+◌, ◌*◌, ◌^◌, ◌≤◌, ◌<◌, ◌≡◌, ◌≢◌, arith}
use polarfs.Lease.Record.{Mount, ballot_generate}

-- `DEFAULT_MAX_HOSTS`, the most hosts that `pfs_leader_init` accepts.
abbrev pub default_max_hosts : ℕ
default_max_hosts = 254

-- A mounted host: the generation is one more than an on-disk uint32_t, or 1.
pub record IsHost (m : Mount) : Type 0 where
  pub some_host : 1 ≤ m.host_id
  pub known : m.host_id ≤ m.num_hosts
  pub few : m.num_hosts ≤ default_max_hosts
  pub mounts : m.generation ≤ 2 ^ 32

step_up : (g k n : ℕ) → g < k → g * n + n ≤ k * n
step_up g k n h = grind arith

mul_bound : (g n b c : ℕ) → g ≤ b → n ≤ c → g * n ≤ b * c
mul_bound g n b c p q = grind arith

-- The 64-bit arithmetic does not wrap.
pub ballot_generate_lem :
    (m : Mount) → IsHost m → ballot_generate m ≡ m.generation * m.num_hosts + m.host_id
unfolding ballot_generate
ballot_generate_lem m v = omega (
  arith,
  mul_bound m.generation m.num_hosts (2 ^ 32) default_max_hosts v.mounts v.few,
  v.known,
  v.few,
)

-- Of two mounted hosts that know the same number of hosts (at most 254, generations at most 2 ^
-- 32): if the hosts differ, so do their ballots, whatever their generations; and if one's
-- generation is higher, so is its ballot, whichever hosts they are.
pub ballots_differ :
    (m k : Mount)
    → IsHost m
    → IsHost k
    → m.num_hosts ≡ k.num_hosts
    → (m.host_id ≢ k.host_id → ballot_generate m ≢ ballot_generate k)
      × (m.generation < k.generation → ballot_generate m < ballot_generate k)
ballots_differ m k v w e = (differ, grow)
  where
    lower : (n g h g' h' : ℕ) → h ≤ n → 1 ≤ h' → g < g' → g * n + h < g' * n + h'
    lower n g h g' h' p q r = omega (arith, step_up g g' n r)

    grow : m.generation < k.generation → ballot_generate m < ballot_generate k
    grow r =
        rw (ballot_generate_lem m v, ballot_generate_lem k w, e)
          (lower k.num_hosts m.generation m.host_id k.generation k.host_id
            (omega (arith, v.known, e)) w.some_host r)

    shrink : k.generation < m.generation → ballot_generate k < ballot_generate m
    shrink r =
        rw (ballot_generate_lem m v, ballot_generate_lem k w, e)
          (lower k.num_hosts k.generation k.host_id m.generation m.host_id w.known v.some_host r)

    differ : m.host_id ≢ k.host_id → ballot_generate m ≢ ballot_generate k
    differ ne same = elim (dec_lt m.generation k.generation) [
      | yes r ↦ omega (arith, grow r, same)
      | no r ↦ elim (dec_lt k.generation m.generation) [
        | yes q ↦ omega (arith, shrink q, same)
        | no q ↦ ne (equal (omega arith))
      ]
    ]
      where
        equal : m.generation ≡ k.generation → m.host_id ≡ k.host_id
        equal g = omega (arith, sym_sum, ap₂ ◌*◌ g e)
          where
            sym_sum :
                m.generation * m.num_hosts + m.host_id ≡ k.generation * k.num_hosts + k.host_id
            sym_sum = cc (ballot_generate_lem m v, ballot_generate_lem k w)
