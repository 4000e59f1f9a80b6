-- ===== src/LocalTarget/Live.antt =====
-- internal/localtarget/localtarget.go: `ResolveLive` never hands out a port that compose contradicts.
use w17ctl.Base.{ℕ, ℤ, pos, Str, Option, none, some, List, [], ◌≡◌, ◌≢◌, ◌⊎◌}
use w17ctl.LocalTarget.{
  SkipReason, Resolved, found, skipped, Publisher, published_at, engine_port,
  dialect_from_connection_name, dsn_for, port_of, Answer,
}

-- Compose publishes the store's engine on the port.
abbrev pub IsPublished : List Publisher → Str → ℤ → Type 0
IsPublished ps name port =
    (dialect : Str) × (engine : ℕ) × (dialect_from_connection_name name ≡ some dialect)
    × (engine_port dialect ≡ some engine)
    × (published_at ps name (pos engine) (pos 0) ≡ port)
    × (port ≢ pos 0)

module _ (url_port : Str → Option Str) (name : Str) where
  -- What is answered for a live port. Where a DSN is remembered: that one, without a note, where it
  -- names the port, and else the one for the port, with a note of the two ports. Where none is: the one
  -- for the port, and why none is remembered where there is no such DSN.
  abbrev pub IsAnswerFor : Resolved → ℤ → Answer → Type 0
  IsAnswerFor (found d) port a =
      ((port_of url_port d ≡ port) × (a ≡ (found d, none)))
      ⊎ ((port_of url_port d ≢ port)
          × (a ≡ (found (dsn_for name port), some (port, port_of url_port d))))
  IsAnswerFor (skipped r) port a =
      ((dsn_for name port ≡ []) × (a ≡ (skipped r, none)))
      ⊎ ((dsn_for name port ≢ []) × (a ≡ (found (dsn_for name port), none)))

  -- What compose's answer makes of a resolution: no DSN where compose publishes the store's engine on no
  -- port, and else the answer for the port that it publishes.
  abbrev pub IsLive : List Publisher → Resolved → Answer → Type 0
  IsLive ps remembered a =
      ((r : SkipReason) × (a ≡ (skipped r, none)) × ((port : ℤ) → ¬ (IsPublished ps name port)))
      ⊎ ((port : ℤ) × IsPublished ps name port × IsAnswerFor remembered port a)
