-- ===== src/Manager/History.antt =====
-- What a call of `ManageListeners` does to a listener of a manager with any history of calls.
use reloader.Prelude.{
  String, true, false, ◌≡◌, ap, ◌∙◌, Option, none, some, List, [], ok, if◌then◌else◌, string_eq,
  lookup, is_some,
}
use reloader.Api.{NotificationSource}
use reloader.Webhook.Server.{WebhookServer}
use reloader.Manager.{
  NamespacedName, Host, Listener, Manager, desired_from, sources_of, manage_listeners,
}
use reloader.Manager.Stops.{IsAlone}
use reloader.Manager.Reconcile.{Covers}
use reloader.Manager.Manages.{own_at, manage_listeners-keeps}
use reloader.Manager.Sound.{IsSound, Call, manages, new_manager, manager-IsSound}

-- In a sound manager a listener's identity is its own.
pub IsAlone-of_IsSound :
    (lm : Manager) (manifest : NamespacedName) (k : String) (l : Listener)
    → IsSound lm
    → lookup k (own_at manifest lm) ≡ some l
    → IsAlone k l (own_at manifest lm)
IsAlone-of_IsSound lm manifest k l sound found j q there same =
    (sound.distinct manifest manifest j k q l there found same).1

-- After any calls of a new manager, a call that succeeds keeps a listener of its Config, the same one
-- and running, if a source with the listener's key is among the call's sources; else it stops the
-- listener and drops its entry. That a range visits every key of a map is a hypothesis.
pub manages-keeps :
    (host : Host) (server : Option WebhookServer) (cs : List Call) (manifest : NamespacedName)
    (sources : Option (List NotificationSource)) (lm' : Manager) (k : String) (l : Listener)
    → Covers host
    → manage_listeners host manifest sources (manages host cs (new_manager server)) ≡ ok lm'
    → lookup k (own_at manifest (manages host cs (new_manager server))) ≡ some l
    → let wanted = is_some (lookup k (desired_from host [] (sources_of host sources))) in
      (lookup k (own_at manifest lm') ≡ (if wanted then some l else none))
      × (lm'.stopped l.id ≡ (if wanted then false else true))
manages-keeps host server cs manifest sources lm' k l covers e found =
    let lm = manages host cs (new_manager server) in
    let sound = manager-IsSound host server cs in
    let wanted = is_some (lookup k (desired_from host [] (sources_of host sources))) in
    let (kept, stops) =
      manage_listeners-keeps host manifest sources lm lm' k l covers e found
        (IsAlone-of_IsSound lm manifest k l sound found) in
    (kept, stops ∙ ap (λ b. if wanted then b else true) (sound.live manifest k l found).1)
