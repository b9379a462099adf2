-- ===== src/Config/Files.antt =====
-- Load and GetConfigPath of pkg/config/config.go, side by side.
use syndi.Common.{Text, [], ok, ◌≡◌, ◌≢◌, ◌↔◌}
use syndi.Config.{Config, ConfigApi}

module _ (api : ConfigApi) where
  -- An absolute path is that of the same file, and is not empty. The errors of a file that cannot be
  -- read differ, since they name its path.
  pub record IsAbs : Type 0 where
    pub same_file :
        (path absolute : Text)
        → api.abs path ≡ ok absolute
        → (content : Text)
        → (api.read_file absolute ≡ ok content) ↔ (api.read_file path ≡ ok content)
    pub named : (path : Text) → api.abs path ≢ ok []
