-- ===== src/Pause/Waits.antt =====
-- Who waits for the manager is let go.
use sing.Common.{ℕ, ◌<◌, ◌≡◌, ◌⊎◌, refl, ap, ◌∙◌, true, List, [], ◌∷◌, ◌++◌, arith, inl}
use sing.Common.Outcome.{ok, ◌>>=◌}
use sing.Pause.{
  Manager, started, at_network, close, device_pause, device_wake, network_pause, network_wake,
  register_callback, unregister_callback, wait_active,
}
use sing.Pause.Refines.{
  Op, device_pause_op, device_wake_op, network_pause_op, network_wake_op, register_op,
  unregister_op, call, call_lem, run, IsSound,
}

-- The channel `i` was the device's at some time: it still is, or it was closed.
record Awaited (i : ℕ) (m : Manager) : Type 0 where
  made : i < m.channels.next
  held : (m.device_channel ≡ i) ⊎ (m.channels.closed i ≡ true)

-- The device's channel leaves the manager only where it is closed, and no channel is opened again.
call-Awaited :
    (op : Op) (i : ℕ) (m m' : Manager) → call op m ≡ ok m' → IsSound m → Awaited i m → Awaited i m'
unfolding call device_pause device_wake network_pause network_wake register_callback
    unregister_callback close
call-Awaited device_pause_op i m m' e v w = ground (arith, e, v.device_open, w.made, w.held)
call-Awaited device_wake_op i m m' e v w = ground (arith, e, v.device_open, w.made, w.held)
call-Awaited network_pause_op i m m' e v w = ground (arith, e, v.network_open, w.made, w.held)
call-Awaited network_wake_op i m m' e v w = ground (arith, e, v.network_open, w.made, w.held)
call-Awaited (register_op c) i m m' e v w = ground (arith, e, w.made, w.held)
call-Awaited (unregister_op c) i m m' e v w = ground (arith, e, w.made, w.held)

record Closed (i : ℕ) (m : Manager) : Type 0 where
  made : i < m.channels.next
  closed : m.channels.closed i ≡ true

call-Closed : (op : Op) (i : ℕ) (m m' : Manager) → call op m ≡ ok m' → Closed i m → Closed i m'
unfolding call device_pause device_wake network_pause network_wake register_callback
    unregister_callback close
call-Closed device_pause_op i m m' e w = ground (arith, e, w.made, w.closed)
call-Closed device_wake_op i m m' e w = ground (arith, e, w.made, w.closed)
call-Closed network_pause_op i m m' e w = ground (arith, e, w.made, w.closed)
call-Closed network_wake_op i m m' e w = ground (arith, e, w.made, w.closed)
call-Closed (register_op c) i m m' e w = ground (arith, e, w.made, w.closed)
call-Closed (unregister_op c) i m m' e w = ground (arith, e, w.made, w.closed)

-- A wake closes the channel.
device_wake-Closed :
    (i : ℕ) (m m' : Manager) → call device_wake_op m ≡ ok m' → IsSound m → Awaited i m → Closed i m'
unfolding call device_wake close
device_wake-Closed i m m' e v w = ground (arith, e, v.device_open, w.made, w.held)

run-Closed :
    (ops : List Op) (i : ℕ) (m : Manager)
    → IsSound m
    → Closed i m
    → (m' : Manager) × (run ops m ≡ ok m') × Closed i m'
unfolding run
run-Closed [] i m v w = (m, refl, w)
run-Closed (op ∷ ops) i m v w =
    let (m1, d1, v1, _) = call_lem op m v in
    let (m2, d2, w2) = run-Closed ops i m1 v1 (call-Closed op i m m1 d1 w) in
    (m2, ap (λ o. o >>= run ops) d1 ∙ d2, w2)

run-wake :
    (before behind : List Op) (i : ℕ) (m : Manager)
    → IsSound m
    → Awaited i m
    → (m' : Manager) × (run (before ++ (device_wake_op ∷ behind)) m ≡ ok m') × Closed i m'
unfolding run
run-wake [] behind i m v w =
    let (m1, d1, v1, _) = call_lem device_wake_op m v in
    let (m2, d2, w2) = run-Closed behind i m1 v1 (device_wake-Closed i m m1 d1 v w) in
    (m2, ap (λ o. o >>= run behind) d1 ∙ d2, w2)
run-wake (op ∷ before) behind i m v w =
    let (m1, d1, v1, _) = call_lem op m v in
    let (m2, d2, w2) = run-wake before behind i m1 v1 (call-Awaited op i m m1 d1 v w) in
    (m2, ap (λ o. o >>= run (before ++ (device_wake_op ∷ behind))) d1 ∙ d2, w2)

-- A wait that starts on a sound manager, whose context is never done, does not miss a wake of the
-- device: after any calls with a `DeviceWake` among them, even where the device was paused again
-- behind it, the wait goes on to the network's channel.
pub pause_wait_lem :
    (before behind : List Op) (m : Manager)
    → IsSound m
    → (m' : Manager) × (run (before ++ (device_wake_op ∷ behind)) m ≡ ok m')
      × (wait_active m' (wait_active m started) ≡ at_network m'.network_channel)
unfolding wait_active
pause_wait_lem before behind m v =
    let (m', d, w) =
      run-wake before behind m.device_channel m v
        (record { made = v.device_made; held = inl refl }) in
    (m', d, ground (arith, w.closed))
