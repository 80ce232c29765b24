-- ===== src/Tests/Profiles.antt =====
-- Runs of the model of the NetworkManager profiles of pkg/config/cos.go.
use harvester_installer.Prelude.{String, [], false, if◌then◌else◌, none, ok, refl, true, ◌∷◌, ◌≡◌}
use harvester_installer.Config.Profiles.{
  Env, read_all, restore_original_network_config, save_original_network_config,
  update_management_interface_config,
}
use harvester_installer.Config.Profiles.Effects.{
  Machine, glob, is_profile, keep, lookup, once, profile_paths, pure, read_file, store, ◌>>=◌,
}
use harvester_installer.Config.Profiles.Returns.{Faulty, Returns}
use harvester_installer.Config.Profiles.Wiped.{without}
use harvester_installer.Config.Profiles.Restored.{Unique}
use harvester_installer.Config.Profiles.Saved.{save_original_network_config-HasSaved}
use harvester_installer.Config.Profiles.RoundTrip.{save-restore}
use harvester_installer.Config.Profiles.Written.{Excuse, profiles_of}
use harvester_installer.Config.Profiles.Updated.{update_management_interface_config-Written}
use harvester_installer.Tests.{management}

abbrev env : Env
env = record {
  render = λ d. ok "rendered";
  mask_to_cidr = λ mask. "24";
  faults = record {
    read_fault = λ p. none;
    write_fault = λ p. none;
    remove_fault = λ p. none;
    mkdir_fault = λ p. none;
    command_fault = λ line. none;
  };
}

-- Before the first save: a profile, and a file that is none.
abbrev fresh : Machine
fresh = record {
  files = ("/c/old.nmconnection", "old") ∷ ("/c/notes", "text") ∷ [];
  originals = [];
  saved_once = false;
  commands = [];
}

abbrev saved : Machine
saved = record {
  files = fresh.files;
  originals = ("/c/old.nmconnection", "old") ∷ [];
  saved_once = true;
  commands = [];
}

-- After the save another profile has taken the place of the old one.
abbrev changed : Machine
changed = record saved { files = ("/c/new.nmconnection", "new") ∷ ("/c/notes", "text") ∷ [] }

fresh-saved : save_original_network_config env "/c" fresh ≡ (ok tt, saved)
unfolding save_original_network_config once glob ◌>>=◌ profile_paths is_profile read_all read_file
    lookup keep store pure
fresh-saved = refl

save_original_network_config-HasSaved_example :
    Returns
      (Faulty env.faults)
      (λ _ t.
        (t.files ≡ fresh.files)
        × Unique t.originals
        × ((q : String)
            → lookup q t.originals ≡ (if is_profile "/c" q then lookup q fresh.files else none)))
      (save_original_network_config env "/c" fresh)
save_original_network_config-HasSaved_example =
    save_original_network_config-HasSaved env "/c" fresh refl refl

save-restore_example :
    Returns
      (Faulty env.faults)
      (λ _ v.
        (r : String)
        → lookup r v.files
          ≡ (if is_profile "/c" r then lookup r fresh.files else lookup r changed.files))
      (restore_original_network_config env "/c" changed)
unfolding is_profile lookup
save-restore_example =
    save-restore env "/c" fresh saved changed "/c/old.nmconnection" "old" refl refl refl refl
      fresh-saved refl

update_management_interface_config-Written_example :
    Returns
      (Excuse env management)
      (λ _ t.
        (q : String)
        → lookup q t.files ≡ profiles_of env "/c" management [] (without (is_profile "/c") fresh) q)
      (update_management_interface_config env management [] "/c" true fresh)
update_management_interface_config-Written_example =
    update_management_interface_config-Written env management [] "/c" true fresh
