-- ===== src/Transport/Parse.antt =====
-- internal/remote/dest.go: `ParseDest`, what a destination that is accepted looks like.
use w17ctl.Base.{
  ℕ, ◌≤◌, Str, pos, atoi, false, none, some, [], ◌∷◌, ◌++◌, ◌≡◌, ◌≢◌, ◌⊎◌, inl, inr, has_byte,
}
use w17ctl.Transport.{Dest, DestError, empty, out_of_range, no_host, in_range}

-- A text cut at its last colon.
abbrev pub IsCut : Str → Str → Str → Type 0
IsCut t host port = (t ≡ host ++ b':' ∷ port) × (has_byte b':' port ≡ false)

-- What the answer for a text says of it. An accepted destination without a port is the whole text, and
-- no number stands behind the text's last colon; one with a port is what stands before the last colon,
-- and the port is the TCP port that stands behind it.
abbrev pub IsParsed : Str → DestError ⊎ Dest → Type 0
IsParsed t (inl empty) = t ≡ []
IsParsed t (inl (out_of_range z)) =
    (host : Str) × (port : Str) × IsCut t host port × (atoi port ≡ some z) × (in_range z ≡ false)
IsParsed t (inl no_host) =
    (port : Str) × (n : ℕ) × IsCut t [] port × (atoi port ≡ some (pos n)) × (1 ≤ n) × (n ≤ 65535)
IsParsed t (inr d) =
    (d.target ≢ [])
    × (((d.port ≡ 0) × (d.target ≡ t) × ((host port : Str) → IsCut t host port → atoi port ≡ none))
        ⊎ ((port : Str) × IsCut t d.target port
            × (atoi port ≡ some (pos d.port))
            × (1 ≤ d.port)
            × (d.port ≤ 65535)))
