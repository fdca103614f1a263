-- ===== src/Config/Overrides.antt =====
-- The environment comes before the file of the configuration.
use wgrift.Base.{
  Bool, true, ◌||◌, Option, none, some, Text, codes, is_nil, if◌then◌else◌, ◌≡◌, text_eq, arith,
}
use wgrift.Base.Result.{ok}
use wgrift.Config.{
  Config, LoadError, should_auto_start, demo_set, defaults, auto_start_set, override_key,
  override_demo, override_auto_start, load, master_key,
}

module _ (getenv : Text → Text) where
  demo-overridden :
      (c : Config)
      → (override_auto_start getenv (override_demo getenv (override_key getenv c))).demo
        ≡ (demo_set getenv || c.demo)
  demo-overridden c = ground arith

  auto_start-overridden :
      (c : Config)
      → should_auto_start
          (override_auto_start getenv (override_demo getenv (override_key getenv c))).server
        ≡ (if is_nil (getenv (codes "WGRIFT_AUTO_START_INTERFACES"))
            then should_auto_start c.server
            else auto_start_set (getenv (codes "WGRIFT_AUTO_START_INTERFACES")))
  unfolding should_auto_start
  auto_start-overridden c = ground arith

  module _ (read_file : Text → Option Text) where
    key-overridden :
        (c : Config)
        → master_key getenv read_file
            (override_auto_start getenv (override_demo getenv (override_key getenv c)))
          ≡ (if is_nil (getenv (codes "WGRIFT_MASTER_KEY"))
              then master_key getenv read_file c
              else ok (getenv (codes "WGRIFT_MASTER_KEY")))
    unfolding master_key
    key-overridden c = ground arith

-- Where the file can be read and parsed: the demo mode is that of the environment or of the file,
-- the start of interfaces that of the environment, or else the file's, and the master key that of
-- the environment, or else the one that the parsed configuration names.
abbrev pub Overridden :
    (Text → Text) → (Text → Option Text) → Config → Config × Option LoadError → Type 0
Overridden getenv read_file parsed (cfg, some e) = ⊥
Overridden getenv read_file parsed (cfg, none) =
    (cfg.demo ≡ (text_eq (getenv (codes "WGRIFT_DEMO_MODE")) (codes "true") || parsed.demo))
    × (should_auto_start cfg.server ≡ (
        if is_nil (getenv (codes "WGRIFT_AUTO_START_INTERFACES"))
        then should_auto_start parsed.server
        else (text_eq (getenv (codes "WGRIFT_AUTO_START_INTERFACES")) (codes "true")
            || text_eq (getenv (codes "WGRIFT_AUTO_START_INTERFACES")) (codes "1"))))
    × (master_key getenv read_file cfg ≡ (
        if is_nil (getenv (codes "WGRIFT_MASTER_KEY"))
        then master_key getenv read_file parsed
        else ok (getenv (codes "WGRIFT_MASTER_KEY"))))

-- If the file is read and parsed, loading succeeds and the environment comes before the file: the
-- demo mode is on if either turns it on, interfaces are started as the environment says, or else
-- the file, and the master key is the environment's, or else that of the file that is named.
pub load-Overridden :
    (getenv : Text → Text) (read_file : Text → Option Text)
    (unmarshal : Text → Config → Config × Bool) (path text : Text) (parsed : Config)
    → read_file path ≡ some text
    → unmarshal text (defaults getenv) ≡ (parsed, true)
    → Overridden getenv read_file parsed (load getenv read_file unmarshal path)
unfolding load
load-Overridden getenv read_file unmarshal path text parsed read ok_parse =
    rw (load, read)
      (rw ok_parse (
        demo-overridden getenv parsed,
        auto_start-overridden getenv parsed,
        key-overridden getenv read_file parsed,
      ))
