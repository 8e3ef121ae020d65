-- ===== src/Config/Fields.antt =====
-- What each member of the configuration is after loading.
use tiny_im.Prelude.{◌≡◌, refl, Option, none, some, Bytes, codes}
use tiny_im.Prelude.Int.{ℤ}
use tiny_im.Config.{ConfigLib, Config, load_port, load_json, load_config}

-- A value that counts only if another one is there.
abbrev pub after {ℓ κ} : {A : Type ℓ} {B : Type κ} → Option A → Option B → Option B
after none o = none
after (some a) o = o

abbrev pub or_old {ℓ} : {A : Type ℓ} → Option A → A → A
or_old none old = old
or_old (some a) old = a

-- Each member is the file's if it and those assigned before it could be read, and as it was if not.
abbrev pub Loaded :
    Option ℤ → Option Bytes → Option Bytes → Option Bytes → Option ℤ → Config → Config → Type 0
Loaded p d h l n c c' =
    (c'.port ≡ or_old p c.port)
    × (c'.db_name ≡ or_old (after p d) c.db_name)
    × (c'.host ≡ or_old (after p (after d h)) c.host)
    × (c'.log_level ≡ or_old (after p (after d (after h l))) c.log_level)
    × (c'.connection_size ≡ or_old (after p (after d (after h (after l n)))) c.connection_size)

load_port-Loaded :
    (p : Option ℤ) (d h l : Option Bytes) (n : Option ℤ) (c : Config)
    → Loaded p d h l n c (load_port p d h l n c)
unfolding load_port
load_port-Loaded none d h l n c = (refl, refl, refl, refl, refl)
load_port-Loaded (some p) none h l n c = (refl, refl, refl, refl, refl)
load_port-Loaded (some p) (some d) none l n c = (refl, refl, refl, refl, refl)
load_port-Loaded (some p) (some d) (some h) none n c = (refl, refl, refl, refl, refl)
load_port-Loaded (some p) (some d) (some h) (some l) none c = (refl, refl, refl, refl, refl)
load_port-Loaded (some p) (some d) (some h) (some l) (some n) c = (refl, refl, refl, refl, refl)

-- After a configuration file that is JSON was read, each member is the file's value if this value
-- and those of the members assigned before it could be read, and is what it was if not.
pub load_config-Loaded :
    (lib : ConfigLib) (file : Bytes) (j : lib.Json) (c : Config)
    → lib.read file ≡ some j
    → Loaded
        (lib.at_int j (codes "port"))
        (lib.at_text j (codes "db_name"))
        (lib.at_text j (codes "host"))
        (lib.at_text j (codes "log_level"))
        (lib.at_int j (codes "connection_size"))
        c
        (load_config lib (some file) c)
unfolding load_config load_json
load_config-Loaded lib file j c h = rw h (
    load_port-Loaded (lib.at_int j (codes "port")) (lib.at_text j (codes "db_name"))
      (lib.at_text j (codes "host")) (lib.at_text j (codes "log_level"))
      (lib.at_int j (codes "connection_size")) c)
