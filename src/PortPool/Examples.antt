-- ===== src/PortPool/Examples.antt =====
-- The port pool after an acquire, a drop and two acquires.
use bairelay.Base.{List, [], ◌∷◌}
use bairelay.PortPool.{acquire}
use bairelay.PortPool.Leases.{
  Call, acquire_call, drop_call, perform_all, new_pool, Sound, LeastFree, acquire-perform_all,
}

abbrev calls : List Call
calls = acquire_call ∷ drop_call 40000 ∷ acquire_call ∷ acquire_call ∷ []

acquire-perform_all_example :
    let w = perform_all new_pool calls in Sound w × LeastFree w.live (acquire w.used).0
acquire-perform_all_example = acquire-perform_all calls
