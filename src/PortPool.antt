-- ===== src/PortPool.antt =====
-- The pool of UDP port pairs of src/rtsp/server/udp_pool.rs. A call under its mutex is one step.
pub mod Leases
mod Examples
use bairelay.Base.{ℕ, zero, suc, ◌+◌, List, [], ◌∷◌, Option, none, some, leb, if◌then◌else◌}
use bairelay.Base.HashSet.{contains, insert, remove}

abbrev pub pool_start : ℕ
pool_start = 40000

abbrev pub pool_end : ℕ
pool_end = 40998

-- The pool that a lease points to is the one pool of the model.
pub record UdpPortLease : Type 0 where
  pub rtp_port : ℕ
  pub rtcp_port : ℕ

-- `Ok(lease)` and `Err(PortPoolError::Exhausted)`; `stuck` is a loop out of fuel.
pub data Acquired : Type 0 where
  leased : UdpPortLease → Acquired
  exhausted : Acquired
  stuck : Acquired

-- `while port <= POOL_END`, with the set after it.
unfoldable pub acquire_loop : ℕ → ℕ → List ℕ → Acquired × List ℕ
unfolding contains insert
acquire_loop zero port used = (stuck, used)
acquire_loop (suc fuel) port used =
    let rest = acquire_loop fuel (port + 2) used in
    if leb port pool_end
    then if contains port used
      then rest
      else (leased (record { rtp_port = port; rtcp_port = port + 1 }), insert port used)
    else (exhausted, used)

-- 500 pairs, and the round that ends the loop.
unfoldable pub acquire : List ℕ → Acquired × List ℕ
unfolding acquire_loop
acquire used = acquire_loop 501 pool_start used

-- `release`, which the drop of a lease calls.
unfoldable pub release : ℕ → List ℕ → List ℕ
unfolding remove
release rtp_port used = remove rtp_port used
