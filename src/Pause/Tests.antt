-- ===== src/Pause/Tests.antt =====
-- The default manager, and some calls.
use sing.Common.{◌≡◌, ◌||◌, List, [], ◌∷◌, ◌++◌}
use sing.Common.Outcome.{ok}
use sing.Pause.{Manager, default_manager, is_paused, wait_active, started, at_network}
use sing.Pause.Refines.{
  Op, device_pause_op, device_wake_op, network_pause_op, register_op, run, flags, after_all,
  IsSound, default_manager-IsSound, pause-run-refines,
}
use sing.Pause.Waits.{pause_wait_lem}

abbrev naps : List Op
naps = register_op 7 ∷ device_pause_op ∷ device_pause_op ∷ network_pause_op ∷ device_wake_op ∷ []

pause-run-refines_example :
    (m : Manager) × (run naps default_manager ≡ ok m)
    × IsSound m
    × (flags m ≡ after_all naps (flags default_manager))
    × (is_paused m
        ≡ (after_all naps (flags default_manager)).device
          || (after_all naps (flags default_manager)).network)
pause-run-refines_example = pause-run-refines naps default_manager default_manager-IsSound

pause_wait_lem_example :
    (m : Manager) × (run (naps ++ (device_wake_op ∷ device_pause_op ∷ [])) default_manager ≡ ok m)
    × (wait_active m (wait_active default_manager started) ≡ at_network m.network_channel)
pause_wait_lem_example =
    pause_wait_lem naps (device_pause_op ∷ []) default_manager default_manager-IsSound
