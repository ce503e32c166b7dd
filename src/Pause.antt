-- ===== src/Pause.antt =====
-- service/pause/default.go: the manager that tells when the device or the network sleeps.
pub mod Refines
pub mod Waits
mod Tests
use sing.Common.{ℕ, suc, ◌+◌, Bool, true, false, List, [], ◌∷◌, ◌++◌, map, ◌==◌, if◌then◌else◌}
use sing.Common.Outcome.{Outcome, ok, panic, ◌>>=◌}
use sing.Linked.{Element, Linked, empty, push_back, remove}

-- The constants of manager.go.
pub data Event : Type 0 where
  event_device_paused event_device_wake event_network_pause event_network_wake : Event

-- Go's channels that nothing is sent on: which of them are closed, and the next new one.
pub record Channels : Type 0 where
  pub closed : ℕ → Bool
  pub next : ℕ

-- A callback is a number, and `told` has the calls of callbacks, in order.
pub record Manager : Type 0 where
  pub channels : Channels
  pub device_channel : ℕ
  pub device_paused : Bool
  pub network_channel : ℕ
  pub network_paused : Bool
  pub callbacks : Linked ℕ
  pub told : List (ℕ × Event)

abbrev pub with_closed : ℕ → Channels → Channels
with_closed i c = record c { closed = λ j. if j == i then true else c.closed j }

-- `close`, which panics on a closed channel.
pub close : ℕ → Channels → Outcome Channels
close i c = if c.closed i then panic else ok (with_closed i c)

-- `make`: the channel is `c.next`.
abbrev pub make : Channels → Channels
make c = record { closed = λ j. if j == c.next then false else c.closed j; next = c.next + 1 }

-- The manager of `WithDefaultManager`, where the context has none: both its channels are closed.
pub default_manager : Manager
default_manager = record {
  channels = record { closed = λ j. true; next = 2 };
  device_channel = 0;
  device_paused = false;
  network_channel = 1;
  network_paused = false;
  callbacks = empty;
  told = [];
}

abbrev pub emit : Event → Manager → Manager
emit event m = record m { told = m.told ++ map (λ e. (e.value, event)) m.callbacks.elements }

pub device_pause : Manager → Manager
device_pause m =
    if m.channels.closed m.device_channel
    then emit event_device_paused (record m {
      device_paused = true;
      device_channel = m.channels.next;
      channels = make m.channels;
    })
    else m

pub device_wake : Manager → Outcome Manager
unfolding close
device_wake m = if m.channels.closed m.device_channel then ok m else (do
  channels ← close m.device_channel m.channels
  ok (emit event_device_wake (record m { device_paused = false; channels = channels })))

pub network_pause : Manager → Manager
network_pause m =
    if m.channels.closed m.network_channel
    then emit event_network_pause (record m {
      network_paused = true;
      network_channel = m.channels.next;
      channels = make m.channels;
    })
    else m

pub network_wake : Manager → Outcome Manager
unfolding close
network_wake m = if m.channels.closed m.network_channel then ok m else (do
  channels ← close m.network_channel m.channels
  ok (emit event_network_wake (record m { network_paused = false; channels = channels })))

-- The element that is returned is `m.callbacks.next`.
pub register_callback : ℕ → Manager → Manager
register_callback callback m = record m { callbacks = push_back callback m.callbacks }

pub unregister_callback : ℕ → Manager → Manager
unregister_callback element m = record m { callbacks = remove element m.callbacks }

pub is_device_paused : Manager → Bool
is_device_paused m = m.device_paused

pub is_network_paused : Manager → Bool
is_network_paused m = m.network_paused

pub is_paused : Manager → Bool
is_paused m =
    if m.channels.closed m.device_channel
    then (if m.channels.closed m.network_channel then false else true)
    else true

-- `WaitActive` where the context is not done: it waits for the device's channel, as it is when the
-- wait starts, and then for the network's channel, as it is then.
pub data Waiter : Type 0 where
  started returned : Waiter
  at_device at_network : ℕ → Waiter

pub wait_active : Manager → Waiter → Waiter
wait_active m started = at_device m.device_channel
wait_active m (at_device i) =
    if m.channels.closed i then at_network m.network_channel else at_device i
wait_active m (at_network i) = if m.channels.closed i then returned else at_network i
wait_active m returned = returned
