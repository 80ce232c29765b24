-- ===== src/Console/Install/Protocol.antt =====
-- The order of the events of an installation in pkg/console/util.go, as a machine of its phases.
use harvester_installer.Prelude.{Bool, List, String, [], false, true, ◌∷◌}
use harvester_installer.Console.Webhooks.{RenderedWebhook}
use harvester_installer.Console.Install.Acts.{
  Event, dummy_iface, harv_install, installer_shutdown, notified, ran, stream_disk, supportconfig,
  wiped,
}

pub data Phase : Type 0 where
  idle started stopped installed failing failed_phase rebooting finished streamed : Phase

-- What may happen in a phase. Webhooks are told of the start, of a success of the installer, and of a
-- failure of the installer or of the shutdown; a disk is wiped only before the installer runs, and the
-- shutdown runs only behind a success.
pub data Step : Phase → Event → Phase → Type 0 where
  begin : (hs : List RenderedWebhook) → Step idle (notified "STARTED" hs) started
  wipe : (disk : String) → Step started (wiped disk true) started
  wipe_failure : (disk : String) → Step started (wiped disk false) stopped
  route : Step started (ran dummy_iface [] true) started
  route_failure : Step started (ran dummy_iface [] false) stopped
  install : (env : List String) → Step started (ran harv_install env true) installed
  install_failure : (env : List String) → Step started (ran harv_install env false) failing
  succeed : (hs : List RenderedWebhook) → Step installed (notified "SUCCEEDED" hs) rebooting
  reboot : (env : List String) → Step rebooting (ran installer_shutdown env true) finished
  reboot_failure : (env : List String) → Step rebooting (ran installer_shutdown env false) failing
  fail : (hs : List RenderedWebhook) → Step failing (notified "FAILED" hs) failed_phase
  support : (done : Bool) → Step failed_phase (ran supportconfig [] done) failed_phase
  stream : (env : List String) → Step started (ran stream_disk env true) streamed
  stream_failure : (env : List String) → Step started (ran stream_disk env false) stopped
  reboot_streamed : (env : List String) → Step streamed (ran installer_shutdown env true) finished
  streamed_failure : (env : List String) → Step streamed (ran installer_shutdown env false) stopped

-- The phase that events lead to from the start, the last event first.
pub data Reaches : List Event → Phase → Type 0 where
  here : Reaches [] idle
  next :
      {es : List Event} {e : Event} {p q : Phase} → Reaches es p → Step p e q → Reaches (e ∷ es) q

-- A phase in which an installation may be given up: not behind a failure that is still to be told.
abbrev pub MayStop : Phase → Type 0
MayStop started = Unit
MayStop stopped = Unit
MayStop failed_phase = Unit
MayStop rebooting = Unit
MayStop _ = ⊥
