-- ===== src/Pause/Refines.antt =====
-- The manager is two flags and a list of callbacks.
use sing.Common.{
  ℕ, ◌<◌, ◌≡◌, ◌≢◌, refl, ap, ◌∙◌, Bool, true, false, not, ◌||◌, List, [], ◌∷◌, ◌++◌, map,
  if◌then◌else◌, arith, Bool-cases, inl, inr,
}
use sing.Common.Outcome.{Outcome, ok, ◌>>=◌}
use sing.Linked.{Linked, push_back, remove}
use sing.Pause.{
  Event, Manager, event_device_paused, event_device_wake, event_network_pause, event_network_wake,
  close, default_manager, device_pause, device_wake, network_pause, network_wake, emit, with_closed,
  register_callback, unregister_callback, is_paused,
}

pub data Op : Type 0 where
  device_pause_op device_wake_op network_pause_op network_wake_op : Op
  register_op unregister_op : ℕ → Op

unfoldable pub call : Op → Manager → Outcome Manager
call device_pause_op m = ok (device_pause m)
call device_wake_op m = device_wake m
call network_pause_op m = ok (network_pause m)
call network_wake_op m = network_wake m
call (register_op c) m = ok (register_callback c m)
call (unregister_op e) m = ok (unregister_callback e m)

unfoldable pub run : List Op → Manager → Outcome Manager
unfolding call
run [] m = ok m
run (op ∷ ops) m = do m ← call op m; run ops m

-- What a client knows: who sleeps, and the callbacks.
pub record Flags : Type 0 where
  pub device : Bool
  pub network : Bool
  pub callbacks : Linked ℕ
  pub told : List (ℕ × Event)

abbrev tell : Event → Flags → Flags
tell event f = record f { told = f.told ++ map (λ e. (e.value, event)) f.callbacks.elements }

pub after : Op → Flags → Flags
after device_pause_op f =
    if f.device then f else tell event_device_paused (record f { device = true })
after device_wake_op f =
    if f.device then tell event_device_wake (record f { device = false }) else f
after network_pause_op f =
    if f.network then f else tell event_network_pause (record f { network = true })
after network_wake_op f =
    if f.network then tell event_network_wake (record f { network = false }) else f
after (register_op c) f = record f { callbacks = push_back c f.callbacks }
after (unregister_op e) f = record f { callbacks = remove e f.callbacks }

pub after_all : List Op → Flags → Flags
unfolding after
after_all [] f = f
after_all (op ∷ ops) f = after_all ops (after op f)

-- A flag says that its channel is open. The channels are different, and were made.
pub record IsSound (m : Manager) : Type 0 where
  pub device_open : m.channels.closed m.device_channel ≡ not m.device_paused
  pub network_open : m.channels.closed m.network_channel ≡ not m.network_paused
  pub different : m.device_channel ≢ m.network_channel
  pub device_made : m.device_channel < m.channels.next
  pub network_made : m.network_channel < m.channels.next

abbrev pub flags : Manager → Flags
flags m = record {
  device = m.device_paused;
  network = m.network_paused;
  callbacks = m.callbacks;
  told = m.told;
}

abbrev pub Moves : Op → Manager → Type 0
Moves op m = (m' : Manager) × (call op m ≡ ok m') × IsSound m' × (flags m' ≡ after op (flags m))

pub call_lem : (op : Op) (m : Manager) → IsSound m → Moves op m
unfolding call after device_pause device_wake network_pause network_wake register_callback
    unregister_callback close
call_lem device_pause_op m v = elim (Bool-cases m.device_paused) [
  | inl p ↦ (m, ground (arith, p, v.device_open), v, ground (arith, p))
  | inr p ↦ (_, refl, ground (arith, p, v), ground (arith, p, v.device_open))
]
call_lem network_pause_op m v = elim (Bool-cases m.network_paused) [
  | inl p ↦ (m, ground (arith, p, v.network_open), v, ground (arith, p))
  | inr p ↦ (_, refl, ground (arith, p, v), ground (arith, p, v.network_open))
]
call_lem device_wake_op m v = elim (Bool-cases m.device_paused) [
  | inl p ↦ (
    emit event_device_wake
        (record m { device_paused = false; channels = with_closed m.device_channel m.channels }),
    ground (arith, p, v.device_open),
    ground (arith, p, v),
    ground (arith, p),
  )
  | inr p ↦ (m, ground (arith, p, v.device_open), v, ground (arith, p))
]
call_lem network_wake_op m v = elim (Bool-cases m.network_paused) [
  | inl p ↦ (
    emit event_network_wake
        (record m { network_paused = false; channels = with_closed m.network_channel m.channels }),
    ground (arith, p, v.network_open),
    ground (arith, p, v),
    ground (arith, p),
  )
  | inr p ↦ (m, ground (arith, p, v.network_open), v, ground (arith, p))
]
call_lem (register_op c) m v = (_, refl, ground (arith, v), refl)
call_lem (unregister_op e) m v = (_, refl, ground (arith, v), refl)

-- `IsPaused` of a sound manager.
is_paused_lem : (m : Manager) → IsSound m → is_paused m ≡ m.device_paused || m.network_paused
unfolding is_paused
is_paused_lem m v = ground (arith, v.device_open, v.network_open)

-- From a sound manager, as the default one is: any calls succeed, without a panic of `close` on a
-- closed channel, and leave a sound manager, whose flags, callbacks and calls of callbacks are those
-- of two flags that change only where a call changes them, and tell the callbacks then. `IsPaused`, which
-- reads the channels, says that one of those flags is up.
pub pause-run-refines :
    (ops : List Op) (m : Manager)
    → IsSound m
    → (m' : Manager) × (run ops m ≡ ok m')
      × IsSound m'
      × (flags m' ≡ after_all ops (flags m))
      × (is_paused m' ≡ (after_all ops (flags m)).device || (after_all ops (flags m)).network)
unfolding run after_all
pause-run-refines [] m v = (m, refl, v, refl, is_paused_lem m v)
pause-run-refines (op ∷ ops) m v =
    let (m1, d1, v1, e1) = call_lem op m v in
    let (m2, d2, v2, e2, p2) = pause-run-refines ops m1 v1 in
    (
      m2,
      ap (λ o. o >>= run ops) d1 ∙ d2,
      v2,
      e2 ∙ ap (after_all ops) e1,
      p2 ∙ ap (λ f. (after_all ops f).device || (after_all ops f).network) e1,
    )

pub default_manager-IsSound : IsSound default_manager
unfolding default_manager
default_manager-IsSound = ground arith
