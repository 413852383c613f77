-- ===== src/Plugin/Port.antt =====
-- The port of the connection requests in the firewall when the daemon stops
-- (cwmp_plugin/cwmp_plugin_service.c).
use tr069_manager.Base.{
  ◌≡◌, refl, Bool, true, false, none, List, [], ◌∷◌, ◌++◌, arith, if◌then◌else◌,
}
use tr069_manager.Plugin.Defs.{
  Action, set_service, delete_service, start_process, stop_process, send_inform, Plugin, Env,
}
use tr069_manager.Plugin.Service.{
  open_listening_port, close_listening_port, start_cwmpd, process_stopped,
}
use tr069_manager.Plugin.Events.{process_ended, handle}

-- The port is open in the firewall after its calls, if it was in the beginning.
abbrev pub open_after : Bool → List Action → Bool
open_after was [] = was
open_after was (set_service port interface source version ∷ l) = open_after true l
open_after was (delete_service ∷ l) = open_after false l
open_after was (start_process ∷ l) = open_after was l
open_after was (stop_process ∷ l) = open_after was l
open_after was (send_inform events source ∷ l) = open_after was l

open_after-append :
    (was : Bool) (l l' : List Action) → open_after was (l ++ l') ≡ open_after (open_after was l) l'
open_after-append was [] l' = refl
open_after-append was (set_service port interface source version ∷ l) l' =
    open_after-append true l l'
open_after-append was (delete_service ∷ l) l' = open_after-append false l l'
open_after-append was (start_process ∷ l) l' = open_after-append was l l'
open_after-append was (stop_process ∷ l) l' = open_after-append was l l'
open_after-append was (send_inform events source ∷ l) l' = open_after-append was l l'

-- A daemon that the plugin starts where it had none opens the port, and when its process ends the
-- port stays open, since the process is forgotten before the port is to be closed.
pub port-left_open :
    (e e' : Env) (s : Plugin)
    → s.process ≡ none
    → e.is_standalone ≡ false
    → open_after false (handle e' process_ended (start_cwmpd e s)).log ≡ true
unfolding handle start_cwmpd open_listening_port process_stopped close_listening_port
port-left_open e e' s absent own =
    let action =
      set_service s.port s.interface s.allowed_address (if e.is_ipv6 s.local_ip then 6 else 4) in
    ground (arith, absent, own, open_after-append false (s.log ++ start_process ∷ []) (action ∷ []))
