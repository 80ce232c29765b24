-- ===== src/Console/Install/Acts.antt =====
-- The state behind the installation of pkg/console/util.go: the machine of the network profiles, and
-- what has happened, the last first. An act that fails leaves what happened before.
use harvester_installer.Prelude.{
  Bool, List, Option, Result, String, err, false, map_err, none, ok, some, true, ◌∷◌,
}
use harvester_installer.Config.Layout.{LayoutError}
use harvester_installer.Config.Profiles.Effects.{Io, Machine}
use harvester_installer.Console.Webhooks.{RenderedWebhook}

-- What is run, without its path: `/usr/sbin/harv-install` and so on.
pub data Program : Type 0 where
  harv_install installer_shutdown stream_disk dummy_iface supportconfig restart_services : Program
  yip : String → String → Program

-- The hooks that were handled for an event; a program with its environment, and whether it
-- succeeded; a disk, and whether it was wiped.
pub data Event : Type 0 where
  notified : String → List RenderedWebhook → Event
  ran : Program → List String → Bool → Event
  wiped : String → Bool → Event

pub data InstallError : Type 0 where
  failed : String → InstallError
  layout : LayoutError → InstallError
  wiping : String → String → InstallError

pub record World : Type 0 where
  pub machine : Machine
  pub events : List Event

abbrev pub Act : Type 0 → Type 0
Act A = World → Result InstallError A × World

unfoldable pub give : {A : Type 0} → A → Act A
give a w = (ok a, w)

abbrev pub after :
    {A B : Type 0} → Result InstallError A × World → (A → Act B) → Result InstallError B × World
after (ok a, w) f = f a w
after (err e, w) f = (err e, w)

infixl 5 ◌>>=◌ ◌>>◌
unfoldable pub ◌>>=◌ : {A B : Type 0} → Act A → (A → Act B) → Act B
◌>>=◌ m f w = after (m w) f

abbrev pub ◌>>◌ : {B : Type 0} → Act (Unit {0}) → Act B → Act B
m >> k = m >>= λ _. k

unfoldable pub fail_with : {A : Type 0} → InstallError → Act A
fail_with e w = (err e, w)

-- A result as an act, its error in the type of the installation.
unfoldable pub lift {κ} : {E : Type κ} {A : Type 0} → (E → InstallError) → Result E A → Act A
lift f r w = (map_err f r, w)

abbrev pub on_machine :
    {A : Type 0} → World → Result String A × Machine → Result InstallError A × World
on_machine w (r, m) = (map_err failed r, record w { machine = m })

unfoldable pub of_io : {A : Type 0} → Io A → Act A
of_io m w = on_machine w (m w.machine)

unfoldable pub record_event : Event → Act (Unit {0})
record_event e w = (ok tt, record w { events = e ∷ w.events })

unfoldable pub checked : Option String → Act (Unit {0})
checked none = give tt
checked (some e) = fail_with (failed e)

unfoldable pub ran_with : Program → List String → Option String → Act (Unit {0})
ran_with program env none w = (ok tt, record w { events = ran program env true ∷ w.events })
ran_with program env (some e) w =
    (err (failed e), record w { events = ran program env false ∷ w.events })

unfoldable pub wiped_with : String → Option String → Act (Unit {0})
wiped_with disk none w = (ok tt, record w { events = wiped disk true ∷ w.events })
wiped_with disk (some e) w =
    (err (wiping disk e), record w { events = wiped disk false ∷ w.events })

abbrev pub forget : Result InstallError (Unit {0}) × World → Result InstallError (Unit {0}) × World
forget (r, w) = (ok tt, w)

-- The error is dropped.
unfoldable pub or_continue : Act (Unit {0}) → Act (Unit {0})
or_continue m w = forget (m w)

abbrev pub either :
    Result InstallError (Unit {0}) × World
    → (InstallError → Act (Unit {0}))
    → Act (Unit {0})
    → Result InstallError (Unit {0}) × World
either (ok _, w) bad good = good w
either (err e, w) bad good = bad e w

-- `if err := m; err != nil { return bad(err) }; return good`
unfoldable pub handled :
    Act (Unit {0}) → (InstallError → Act (Unit {0})) → Act (Unit {0}) → Act (Unit {0})
handled m bad good w = either (m w) bad good
