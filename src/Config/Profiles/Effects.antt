-- ===== src/Config/Profiles/Effects.antt =====
-- The state behind the NetworkManager profiles of pkg/config/cos.go: the files, the map
-- `originalNetworkConfigs` with its `sync.Once`, and the commands that were run. An effect that
-- fails leaves what was done before it.
use harvester_installer.Prelude.{
  Bool, List, Option, Result, String, [], codes, concat_text, eqb, err, false, if◌then◌else◌, none,
  not, ok, some, true, ℕ, ◌&&◌, ◌++◌, ◌==◌, ◌||◌, ◌∷◌,
}
use harvester_installer.Config.Types.{Dict}

pub record Machine : Type 0 where
  pub files : Dict
  pub originals : Dict
  pub saved_once : Bool
  pub commands : List String

-- What can fail, with the error.
pub record Faults : Type 0 where
  pub read_fault : String → Option String
  pub write_fault : String → Option String
  pub remove_fault : String → Option String
  pub mkdir_fault : String → Option String
  pub command_fault : String → Option String

abbrev pub Io : Type 0 → Type 0
Io A = Machine → Result String A × Machine

unfoldable pub pure : {A : Type 0} → A → Io A
pure a s = (ok a, s)

abbrev pub after :
    {A B : Type 0} → Result String A × Machine → (A → Io B) → Result String B × Machine
after (ok a, s) f = f a s
after (err e, s) f = (err e, s)

infixl 5 ◌>>=◌ ◌>>◌
unfoldable pub ◌>>=◌ : {A B : Type 0} → Io A → (A → Io B) → Io B
◌>>=◌ m f s = after (m s) f

abbrev pub ◌>>◌ : {B : Type 0} → Io (Unit {0}) → Io B → Io B
m >> k = m >>= λ _. k

unfoldable pub of_result : {A : Type 0} → Result String A → Io A
of_result r s = (r, s)

-- An effect that may fail.
abbrev pub unless : Option String → Machine → Machine → Result String (Unit {0}) × Machine
unless none s t = (ok tt, t)
unless (some e) s t = (err e, s)

unfoldable pub lookup : String → Dict → Option String
lookup path [] = none
lookup path ((p, c) ∷ fs) = if p == path then some c else lookup path fs

unfoldable pub store : String → String → Dict → Dict
store path bytes [] = (path, bytes) ∷ []
store path bytes ((p, c) ∷ fs) =
    if p == path then (path, bytes) ∷ fs else (p, c) ∷ store path bytes fs

unfoldable pub drop : String → Dict → Dict
drop path [] = []
drop path ((p, c) ∷ fs) = let rest = drop path fs in if p == path then rest else (p, c) ∷ rest

unfoldable pub write_file : Faults → String → String → Io (Unit {0})
write_file faults path bytes s =
    unless (faults.write_fault path) s (record s { files = store path bytes s.files })

unfoldable pub remove : Faults → String → Io (Unit {0})
remove faults path s = unless (faults.remove_fault path) s (record s { files = drop path s.files })

unfoldable pub read_bytes : String → Option String → Result String String
read_bytes path none = err path
read_bytes path (some bytes) = ok bytes

abbrev pub read_with : Option String → Result String String → Result String String
read_with none r = r
read_with (some e) r = err e

-- A missing file is an error too.
unfoldable pub read_file : Faults → String → Io String
unfolding read_bytes
read_file faults path s =
    (read_with (faults.read_fault path) (read_bytes path (lookup path s.files)), s)

unfoldable pub mkdir_all : Faults → String → Io (Unit {0})
mkdir_all faults path s = unless (faults.mkdir_fault path) s s

unfoldable pub command : Faults → String → Io (Unit {0})
command faults line s =
    unless (faults.command_fault line) s (record s { commands = s.commands ++ line ∷ [] })

-- `originalNetworkConfigs[path] = bytes`
unfoldable pub keep : String → String → Io (Unit {0})
keep path bytes s = (ok tt, record s { originals = store path bytes s.originals })

unfoldable pub saved_configs : Io Dict
saved_configs s = (ok s.originals, s)

-- `saveOriginalNetworkConfigOnce.Do`: also a failed run counts.
unfoldable pub once : Io (Unit {0}) → Io (Unit {0})
once body s = if s.saved_once then (ok tt, s) else body (record s { saved_once = true })

-- What is left of a text behind a prefix.
strip_prefix : List ℕ → List ℕ → Option (List ℕ)
strip_prefix [] cs = some cs
strip_prefix (p ∷ ps) [] = none
strip_prefix (p ∷ ps) (c ∷ cs) = if eqb p c then strip_prefix ps cs else none

same : List ℕ → List ℕ → Bool
same [] [] = true
same (x ∷ xs) (y ∷ ys) = eqb x y && same xs ys
same _ _ = false

-- `*suffix` within one path element: the star stands for a run with no slash.
matches_star : List ℕ → List ℕ → Bool
unfolding same
matches_star suffix [] = same [] suffix
matches_star suffix (c ∷ cs) =
    let rest = matches_star suffix cs in same (c ∷ cs) suffix || (not (eqb c b'/') && rest)

abbrev matches_rest : Option (List ℕ) → Bool
matches_rest none = false
matches_rest (some rest) = matches_star (codes "nmconnection") rest

-- The pattern `<configPath>/*nmconnection`.
unfoldable pub is_profile : String → String → Bool
unfolding strip_prefix matches_star
is_profile config_path path =
    matches_rest (strip_prefix (codes (concat_text config_path "/")) (codes path))

unfoldable pub profile_paths : (String → Bool) → Dict → List String
profile_paths test [] = []
profile_paths test ((p, c) ∷ fs) =
    let rest = profile_paths test fs in if test p then p ∷ rest else rest

-- `filepath.Glob`
unfoldable pub glob : String → Io (List String)
glob config_path s = (ok (profile_paths (is_profile config_path) s.files), s)
