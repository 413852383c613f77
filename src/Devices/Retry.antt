-- ===== src/Devices/Retry.antt =====
-- The times between the retries (cwmp_plugin/cwmp_plugin_manageable_device.c).
use tr069_manager.Base.{
  ℕ, ◌*◌, Bool, true, ◌&&◌, ◌||◌, Option, none, some, ◌==◌, if◌then◌else◌, is_some,
}
use tr069_manager.Devices.Defs.{Devices}

-- One second doubled up to five times.
pub is_delay : ℕ → Bool
is_delay t = t == 1000 || (t == 2000 || (t == 4000 || (t == 8000 || (t == 16000 || t == 32000))))

-- A timer that runs has a delay, and the next one is its double but for the longest.
pub is_timer : Option ℕ → ℕ → Bool
is_timer none next = true
is_timer (some t) next = is_delay t && next == (if t == 32000 then t else 2 * t)

abbrev pub has_delays : Devices → Bool
has_delays s =
    is_delay s.gmap_timeout
    && (is_delay s.host_timeout
        && (is_timer s.gmap_timer s.gmap_timeout && is_timer s.host_timer s.host_timeout))

-- The query is open or a timer runs that leads to it, and the times are delays.
abbrev pub retries : Devices → Bool
retries s = has_delays s && (s.has_query || (is_some s.gmap_timer || is_some s.host_timer))

abbrev kept : Option Devices → Bool
kept none = true
kept (some s) = retries s
