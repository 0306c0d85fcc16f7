-- ===== src/Singbox/Service/Laws.antt =====
-- What a reload comes to.
use local_singbox_manager.Common.{String, ◌≡◌, refl, Bool, true, false, ◌||◌, List, if◌then◌else◌}
use local_singbox_manager.Common.Python.{Python}
use local_singbox_manager.Singbox.Host.{Host, Event}
use local_singbox_manager.Singbox.Service.{
  service_action, or_restart, reload, restart, reload_or_restart,
}

module _ ⦃py : Python⦄ (host : Host) where
  or_restart-lem :
      (out : (Bool × String) × List Event)
      → ((or_restart host out).0.0 ≡ (out.0.0 || (restart host out.1).0.0))
        × ((or_restart host out).1 ≡ (if out.0.0 then out.1 else (restart host out.1).1))
  unfolding restart
  or_restart-lem ((true, text), next) = (refl, refl)
  or_restart-lem ((false, text), next) = (refl, refl)

  -- A reload that fails is followed by a restart, and one that succeeds by nothing; the answer is
  -- positive if one of the two succeeds.
  pub reload_or_restart-lem :
      (past : List Event)
      → let first = reload host past in
        ((reload_or_restart host past).0.0 ≡ (first.0.0 || (restart host first.1).0.0))
        × ((reload_or_restart host past).1
            ≡ (if first.0.0 then first.1 else (restart host first.1).1))
  unfolding reload reload_or_restart
  reload_or_restart-lem past = or_restart-lem (service_action host "reload" past)
