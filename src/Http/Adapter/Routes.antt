-- ===== src/Http/Adapter/Routes.antt =====
-- The adapter is installed once, and routes every session.
use pycage.Prelude.{◌≡◌, Bool, true, false, Option, none, some}
use pycage.Http.Adapter.{RequestsModule, wasi_http_adapter}

-- The mark is set only where both names stand for the adapter.
abbrev pub IsRouted : Option RequestsModule → Type 0
IsRouted none = Unit
IsRouted (some m) =
    m.pycage_wasi_http ≡ true
    → (m.sessions_adapter ≡ wasi_http_adapter) × (m.adapters_adapter ≡ wasi_http_adapter)

-- The package is there, and both names stand for the adapter.
abbrev pub Routes : Bool → Option RequestsModule → Type 0
Routes installed none = installed ≡ false
Routes installed (some m) =
    (installed ≡ true)
    × (m.pycage_wasi_http ≡ true)
    × (m.sessions_adapter ≡ wasi_http_adapter)
    × (m.adapters_adapter ≡ wasi_http_adapter)
