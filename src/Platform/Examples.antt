-- ===== src/Platform/Examples.antt =====
-- Runs of the platforms, and their theorem at a concrete text.
use task_rs.Base.{◌≡◌, refl, some, none, codes}
use task_rs.Platform.{parse_platform}
use task_rs.Platform.Parse.{default, Says, parse_platform-Says}

parses_pair :
    parse_platform default (codes "linux/arm64")
    ≡ some (record { os = codes "linux"; arch = codes "arm64" })
unfolding parse_platform
parses_pair = refl

refuses_two_archs : parse_platform default (codes "386/arm64") ≡ none
unfolding parse_platform
refuses_two_archs = refl

parse_platform-Says_example :
    (parse_platform default (codes "wasm") ≡ some (record { os = codes ""; arch = codes "wasm" })
      → Says (codes "wasm") (record { os = codes ""; arch = codes "wasm" }))
    × (Says (codes "wasm") (record { os = codes ""; arch = codes "wasm" })
        → parse_platform default (codes "wasm")
          ≡ some (record { os = codes ""; arch = codes "wasm" }))
parse_platform-Says_example =
    parse_platform-Says (codes "wasm") (record { os = codes ""; arch = codes "wasm" })
