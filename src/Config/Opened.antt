-- ===== src/Config/Opened.antt =====
-- What cmd/server.go starts with where the configuration cannot be read.
use syndi.Common.{Text, [], err, ◌≡◌, refl, inl}
use syndi.Config.{ConfigApi, load, start_config}
use syndi.Middleware.Stack.{Request}
use syndi.Middleware.Stack.Passed.{IsAdmitted}

-- A configuration that cannot be read or parsed leaves the server without its access key: every request
-- is admitted.
start_config-IsAdmitted :
    (api : ConfigApi) (message : Text) (r : Request)
    → load api [] ≡ err message
    → IsAdmitted (start_config api).access_key r
start_config-IsAdmitted api message r h = rw (start_config, h) (inl refl)
