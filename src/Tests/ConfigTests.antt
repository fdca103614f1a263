-- ===== src/Tests/ConfigTests.antt =====
-- The configuration loaded on concrete environments.
use wgrift.Base.{[], Text, codes, text_eq, if◌then◌else◌, Option, some, true, Bool, ◌≡◌, refl}
use wgrift.Base.Result.{ok}
use wgrift.Config.{Config, defaults, load, master_key}
use wgrift.Config.Overrides.{Overridden, load-Overridden}

abbrev key_only : Text → Text
key_only name = if text_eq name (codes "WGRIFT_MASTER_KEY") then codes "key" else []

abbrev any_file : Text → Option Text
any_file path = some []

abbrev kept_as_is : Text → Config → Config × Bool
kept_as_is text cfg = (cfg, true)

key_first : master_key key_only any_file (defaults key_only) ≡ ok (codes "key")
unfolding master_key text_eq
key_first = refl

load-Overridden_example :
    Overridden key_only any_file
      (defaults key_only)
      (load key_only any_file kept_as_is (codes "config.yaml"))
load-Overridden_example =
    load-Overridden key_only any_file kept_as_is (codes "config.yaml") [] (defaults key_only) refl
      refl
