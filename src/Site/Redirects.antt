-- ===== src/Site/Redirects.antt =====
-- session.ts and the layout of the pages: who is let in, and where the others end.
use codolympics.Prelude.{◌≡◌, ◌≢◌, String, ◌⊎◌}

-- The home of each role.
abbrev pub IsHome : String → String → Type 0
IsHome role path =
    ((role ≡ "admin") × (path ≡ "/admin"))
    ⊎ ((role ≡ "evaluator") × (path ≡ "/grade"))
    ⊎ ((role ≢ "admin") × (role ≢ "evaluator") × (path ≡ "/dashboard"))
